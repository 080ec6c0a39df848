-- ===== src/Memory/Rsvps.antt =====
-- internal/adapters/memory/rsvprepo/repo.go
pub mod Contract
use eastbay_overland_rally_p.Prelude.{
  ℕ, ◌+◌, Bool, true, false, List, [], ◌∷◌, Option, none, some, ◌==◌, string_eq, pair_eq, not,
  if◌then◌else◌,
}
use eastbay_overland_rally_p.Prelude.Assoc.{Assoc, lookup, insert}
use eastbay_overland_rally_p.Text.{str_lt}
use eastbay_overland_rally_p.Sorting.{sort_slice}
use eastbay_overland_rally_p.Domain.{Rsvp, TripId, MemberId, before, is_yes}
use eastbay_overland_rally_p.Ports.{Result, ok, err, rsvp_not_found, RsvpRepository}

-- the struct key: the trip and the member
abbrev pub Key : Type 0
Key = TripId × MemberId

abbrev pub RsvpStore : Type 0
RsvpStore = Assoc Key Rsvp

abbrev pub found_rsvp : Option Rsvp → Result Rsvp
found_rsvp none = err rsvp_not_found
found_rsvp (some r) = ok r

-- Get
unfoldable pub get : TripId → MemberId → RsvpStore → Result Rsvp
get trip_id member_id s = found_rsvp (lookup (trip_id, member_id) s)

-- Upsert
unfoldable pub upsert : Rsvp → RsvpStore → Result Unit × RsvpStore
upsert rec s = (ok tt, insert (rec.trip_id, rec.member_id) rec s)

-- the loop of ListByTrip: the entries whose key names the trip
select_trip : TripId → RsvpStore → List Rsvp
select_trip trip_id [] = []
select_trip trip_id ((k, v) ∷ s) =
    let rest = select_trip trip_id s in if k.0 == trip_id then v ∷ rest else rest

rsvp_less : Rsvp → Rsvp → Bool
rsvp_less a b =
    if a.member_id == b.member_id
    then before a.updated_at b.updated_at
    else str_lt a.member_id b.member_id

-- ListByTrip
unfoldable pub list_by_trip : TripId → RsvpStore → Result (List Rsvp)
unfolding select_trip rsvp_less
list_by_trip trip_id s = ok (sort_slice rsvp_less (select_trip trip_id s))

-- the loop of CountYesByTrip
count_yes : TripId → RsvpStore → ℕ
count_yes trip_id [] = 0
count_yes trip_id ((k, v) ∷ s) =
    let rest = count_yes trip_id s in
    if not (k.0 == trip_id) then rest else if is_yes v.status then rest + 1 else rest

-- CountYesByTrip
unfoldable pub count_yes_by_trip : TripId → RsvpStore → Result ℕ
unfolding count_yes
count_yes_by_trip trip_id s = ok (count_yes trip_id s)

abbrev pub memory_rsvps : RsvpRepository
memory_rsvps = record {
  Store = RsvpStore;
  get = get;
  upsert = upsert;
  list_by_trip = list_by_trip;
  count_yes_by_trip = count_yes_by_trip;
}
