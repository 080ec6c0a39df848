-- ===== src/Memory/Rsvps/Contract.antt =====
-- The RSVP repository in memory and the laws of its port.
use eastbay_overland_rally_p.Prelude.{
  ℕ, ◌+◌, ◌≡◌, refl, [], ◌∷◌, ◌==◌, ◌&&◌, string_eq, pair_eq, arith, eq_iff, if◌then◌else◌,
}
use eastbay_overland_rally_p.Prelude.Assoc.{lookup, insert, lookup-insert}
use eastbay_overland_rally_p.Domain.{Rsvp, TripId, MemberId}
use eastbay_overland_rally_p.Ports.{ok}
use eastbay_overland_rally_p.Ports.Laws.{RsvpLaws, yes_vote}
use eastbay_overland_rally_p.Memory.Rsvps.{
  RsvpStore, found_rsvp, memory_rsvps, get, upsert, count_yes, count_yes_by_trip,
}

get-upsert_lem :
    (r : Rsvp) (s : RsvpStore) (t : TripId) (m : MemberId)
    → (upsert r s).0 ≡ ok tt
    → get t m (upsert r s).1 ≡ (if r.trip_id == t && r.member_id == m then ok r else get t m s)
unfolding get upsert
get-upsert_lem r s t m h = ground (arith, lookup-insert (r.trip_id, r.member_id) (t, m) r s)

-- One insertion changes the count by the answers before and after it.
count_yes-insert :
    (r : Rsvp) (s : RsvpStore)
    → count_yes r.trip_id (insert (r.trip_id, r.member_id) r s)
        + yes_vote (found_rsvp (lookup (r.trip_id, r.member_id) s))
      ≡ count_yes r.trip_id s + yes_vote (ok r)
unfolding count_yes insert lookup
count_yes-insert r [] = ground (arith, eq_iff r.trip_id r.trip_id)
count_yes-insert r (((t, m), v) ∷ s) = ground (
  arith,
  count_yes-insert r s,
  eq_iff t r.trip_id,
  eq_iff m r.member_id,
  eq_iff r.trip_id r.trip_id,
)

count-upsert_lem :
    (r : Rsvp) (s : RsvpStore) (n : ℕ)
    → (upsert r s).0 ≡ ok tt
    → count_yes_by_trip r.trip_id s ≡ ok n
    → (k : ℕ) × (count_yes_by_trip r.trip_id (upsert r s).1 ≡ ok k)
      × (k + yes_vote (get r.trip_id r.member_id s) ≡ n + yes_vote (ok r))
unfolding upsert count_yes_by_trip get
count-upsert_lem r s n h c = (
  count_yes r.trip_id (insert (r.trip_id, r.member_id) r s),
  refl,
  ground (arith, count_yes-insert r s),
)

-- An answer is read back under its trip and member and under no other key, a failing write changes
-- nothing, and the number of YES answers of a trip changes by the old and the new answer.
pub memory_rsvps-RsvpLaws : RsvpLaws memory_rsvps
unfolding upsert
memory_rsvps-RsvpLaws = record {
  get-upsert = get-upsert_lem;
  upsert_error = λ r s e h. cc;
  count-upsert = count-upsert_lem;
}
