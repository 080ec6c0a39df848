-- ===== src/Memory/Trips.antt =====
-- internal/adapters/memory/triprepo/repo.go
pub mod Contract
pub mod Listing
use eastbay_overland_rally_p.Prelude.{
  String, Bool, true, false, List, [], ◌∷◌, Option, none, some, ◌==◌, string_eq, ◌||◌,
  if◌then◌else◌,
}
use eastbay_overland_rally_p.Prelude.Assoc.{Assoc, lookup, insert, values}
use eastbay_overland_rally_p.Text.{str_lt}
use eastbay_overland_rally_p.Sorting.{sort_slice}
use eastbay_overland_rally_p.Domain.{
  Trip, TripId, MemberId, Time, before, same_instant, DraftVisibility, public_draft, private_draft,
  other_visibility, is_draft, is_published, is_canceled,
}
use eastbay_overland_rally_p.Ports.{
  Result, ok, err, trip_not_found, trip_already_exists, TripRepository,
}

abbrev pub TripStore : Type 0
TripStore = Assoc TripId Trip

-- Create
unfoldable pub create : Trip → TripStore → Result Unit × TripStore
create t s = if t.id == "" then (err trip_already_exists, s) else elim (lookup t.id s) [
  | some _ ↦ (err trip_already_exists, s)
  | none ↦ (ok tt, insert t.id t s)
]

-- Save
unfoldable pub save : Trip → TripStore → Result Unit × TripStore
save t s = if t.id == "" then (err trip_not_found, s) else (ok tt, insert t.id t s)

abbrev pub found_trip : Option Trip → Result Trip
found_trip none = err trip_not_found
found_trip (some t) = ok t

-- GetByID
unfoldable pub get_by_id : TripId → TripStore → Result Trip
get_by_id id s = found_trip (lookup id s)

contains_member : List MemberId → MemberId → Bool
contains_member [] caller = false
contains_member (id ∷ ids) caller = if id == caller then true else contains_member ids caller

visible_as : DraftVisibility → Trip → MemberId → Bool
visible_as public_draft t caller = contains_member t.organizer_member_ids caller
visible_as private_draft t caller = t.creator_member_id == caller
visible_as (other_visibility _) t caller = false

-- isDraftVisibleTo
unfoldable pub is_draft_visible_to : Trip → MemberId → Bool
unfolding visible_as contains_member
is_draft_visible_to t caller = visible_as t.draft_visibility t caller

abbrev created_before : Trip → Trip → Bool
created_before a b =
    if same_instant a.created_at b.created_at
    then str_lt a.id b.id
    else before a.created_at b.created_at

start_before : Option Time → Option Time → Trip → Trip → Bool
start_before (some ad) (some bd) a b =
    if same_instant ad bd then created_before a b else before ad bd
start_before (some ad) none a b = true
start_before none (some bd) a b = false
start_before none none a b = created_before a b

-- the comparison of sortTrips
unfoldable pub trip_less : Trip → Trip → Bool
unfolding start_before
trip_less a b = start_before a.start_date b.start_date a b

-- the loop of a listing, which keeps the trips that pass its tests
pub select : (Trip → Bool) → List Trip → List Trip
select p [] = []
select p (t ∷ ts) = let rest = select p ts in if p t then t ∷ rest else rest

-- ListPublishedAndCanceled
unfoldable pub list_published_and_canceled : TripStore → Result (List Trip)
unfolding select
list_published_and_canceled s =
    ok (
      sort_slice trip_less (select (λ t. is_published t.status || is_canceled t.status) (values s)))

-- ListDraftsVisibleTo
unfoldable pub list_drafts_visible_to : MemberId → TripStore → Result (List Trip)
unfolding select
list_drafts_visible_to caller s = ok (
    sort_slice trip_less
      (select (λ t. if is_draft t.status then is_draft_visible_to t caller else false) (values s)))

abbrev pub memory_trips : TripRepository
memory_trips = record {
  Store = TripStore;
  create = create;
  save = save;
  get_by_id = get_by_id;
  list_published_and_canceled = list_published_and_canceled;
  list_drafts_visible_to = list_drafts_visible_to;
}
