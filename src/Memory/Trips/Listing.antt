-- ===== src/Memory/Trips/Listing.antt =====
-- The listings of the trip repository in memory, beside the visibility rules of the trip service
-- (isTripVisibleToCaller), which state the same rules in other words.
use mathlib.Core.Path.{subst}
use eastbay_overland_rally_p.Prelude.{
  ◌≡◌, refl, ◌↔◌, ◌||◌, inl, inr, true, false, Bool, Bool-cases, List, [], ◌∷◌, Mem, All, All-Mem,
  arith, if◌then◌else◌, string_eq,
}
use eastbay_overland_rally_p.Prelude.Assoc.{values, Mem-values}
use eastbay_overland_rally_p.Sorting.{sort_slice}
use eastbay_overland_rally_p.Sorting.Laws.{Mem-sort_slice, All-sort_slice}
use eastbay_overland_rally_p.Domain.{Trip, TripId, MemberId, is_draft, is_published, is_canceled}
use eastbay_overland_rally_p.Ports.{ok}
use eastbay_overland_rally_p.Trips.Access.{
  is_trip_visible_to_caller, is_organizer, is_organizer_id_in_slice,
}
use eastbay_overland_rally_p.Memory.Trips.{
  TripStore, get_by_id, select, trip_less, contains_member, visible_as, is_draft_visible_to,
  list_published_and_canceled, list_drafts_visible_to,
}

module _ (p : Trip → Bool) where
  Mem-select : (t : Trip) (ts : List Trip) → p t ≡ true → Mem t ts → Mem t (select p ts)
  unfolding select
  Mem-select t [] h there = elim there [ ]
  Mem-select t (x ∷ ts) h (inl e) = let q : p x ≡ true = rw (← e) h in rw q (inl e)
  Mem-select t (x ∷ ts) h (inr there) = ground (arith, Mem-select t ts h there)

  All-select : (ts : List Trip) → All (λ t. p t ≡ true) (select p ts)
  unfolding select
  All-select [] = tt
  All-select (x ∷ ts) = elim (Bool-cases (p x)) [
    | inl kept ↦ rw kept (kept, All-select ts)
    | inr dropped ↦ rw dropped (All-select ts)
  ]

  -- A stored trip is in a sorted listing of the trips that pass a test exactly if it passes.
  listed_iff :
      (s : TripStore) (id : TripId) (t : Trip)
      → get_by_id id s ≡ ok t
      → Mem t (sort_slice trip_less (select p (values s))) ↔ (p t ≡ true)
  unfolding get_by_id
  listed_iff s id t h = (
    All-Mem (λ x. p x ≡ true) t _
        (All-sort_slice trip_less (λ x. p x ≡ true) (select p (values s)) (All-select (values s))),
    λ passes.
        Mem-sort_slice trip_less t (select p (values s))
          (Mem-select t (values s) passes (Mem-values id t s (ground arith))),
  )

same_search :
    (ids : List MemberId) (caller : MemberId)
    → contains_member ids caller ≡ is_organizer_id_in_slice ids caller
unfolding contains_member is_organizer_id_in_slice
same_search [] caller = refl
same_search (id ∷ ids) caller = ground (arith, same_search ids caller)

same_rule :
    (t : Trip) (caller : MemberId)
    → (if is_draft t.status then is_draft_visible_to t caller else false)
      ≡ (if is_draft t.status then is_trip_visible_to_caller t caller else false)
unfolding is_draft_visible_to visible_as is_trip_visible_to_caller is_organizer
same_rule t caller = ground (arith, same_search t.organizer_member_ids caller)

open_rule :
    (t : Trip) (caller : MemberId)
    → (is_published t.status || is_canceled t.status)
      ≡ (if is_draft t.status then false else is_trip_visible_to_caller t caller)
unfolding is_trip_visible_to_caller
open_rule t caller = ground arith

-- A stored trip is in ListDraftsVisibleTo of a caller exactly if it is a draft that the trip service
-- shows to the caller.
pub list_drafts_visible_to_iff :
    (s : TripStore) (caller : MemberId) (id : TripId) (t : Trip) (ts : List Trip)
    → get_by_id id s ≡ ok t
    → list_drafts_visible_to caller s ≡ ok ts
    → Mem t ts ↔ ((is_draft t.status ≡ true) × (is_trip_visible_to_caller t caller ≡ true))
unfolding list_drafts_visible_to
list_drafts_visible_to_iff s caller id t ts got l =
    let p = λ (x : Trip). if is_draft x.status then is_draft_visible_to x caller else false in
    let (kept, found) = listed_iff p s id t got in
    let e : sort_slice trip_less (select p (values s)) ≡ ts = ground arith in
    subst
      (λ ts. Mem t ts ↔ ((is_draft t.status ≡ true) × (is_trip_visible_to_caller t caller ≡ true)))
      e
      (
        λ m. ground (arith, kept m, same_rule t caller),
        λ (early, seen). found (ground (arith, same_rule t caller, early, seen)),
      )

-- A stored trip is in ListPublishedAndCanceled exactly if it is no draft and the trip service shows it
-- to the caller, whoever that is.
pub list_published_and_canceled_iff :
    (s : TripStore) (caller : MemberId) (id : TripId) (t : Trip) (ts : List Trip)
    → get_by_id id s ≡ ok t
    → list_published_and_canceled s ≡ ok ts
    → Mem t ts ↔ ((is_draft t.status ≡ false) × (is_trip_visible_to_caller t caller ≡ true))
unfolding list_published_and_canceled
list_published_and_canceled_iff s caller id t ts got l =
    let p = λ (x : Trip). is_published x.status || is_canceled x.status in
    let (kept, found) = listed_iff p s id t got in
    let e : sort_slice trip_less (select p (values s)) ≡ ts = ground arith in
    subst
      (λ ts. Mem t ts ↔ ((is_draft t.status ≡ false) × (is_trip_visible_to_caller t caller ≡ true)))
      e
      (
        λ m. ground (arith, kept m, open_rule t caller),
        λ (late, seen). found (ground (arith, open_rule t caller, late, seen)),
      )
