-- ===== src/Trips/Organizers/Membership.antt =====
-- What AddTripOrganizer and RemoveTripOrganizer do to the organizers of a trip.
use eastbay_overland_rally_p.Prelude.{
  ◌≡◌, ◌≢◌, refl, inl, inr, true, false, List, [], ◌∷◌, ◌++◌, arith, Bool-cases, eq_iff, ◌==◌,
  string_eq, if◌then◌else◌,
}
use eastbay_overland_rally_p.Domain.{Trip, TripId, MemberId}
use eastbay_overland_rally_p.Ports.{ok, err, Failure, Result-cases}
use eastbay_overland_rally_p.Ports.Laws.{TripLaws}
use eastbay_overland_rally_p.Service.{Backend, World}
use eastbay_overland_rally_p.Trips.Access.{load_organized_trip, is_organizer_id_in_slice}
use eastbay_overland_rally_p.Trips.Access.Guards.{load_organized_trip-ok}
use eastbay_overland_rally_p.Trips.Saving.{save_and_show}
use eastbay_overland_rally_p.Trips.Evolution.{stays, Effect, save_and_show-Effect}
use eastbay_overland_rally_p.Trips.Organizers.{
  or_invalid_member, without, remaining_organizers, add_trip_organizer, remove_trip_organizer,
}

-- The removed member is no organizer of the rest, and every other member is one as before.
is_organizer_id_in_slice-without :
    (ids : List MemberId) (target other : MemberId)
    → is_organizer_id_in_slice (without target ids) other
      ≡ (if other == target then false else is_organizer_id_in_slice ids other)
unfolding is_organizer_id_in_slice without
is_organizer_id_in_slice-without [] target other = ground arith
is_organizer_id_in_slice-without (id ∷ ids) target other = ground (
  arith,
  is_organizer_id_in_slice-without ids target other,
  eq_iff id target,
  eq_iff id other,
  eq_iff other target,
)

-- The added member is an organizer, and every other member is one as before.
pub is_organizer_id_in_slice-append :
    (ids : List MemberId) (target other : MemberId)
    → is_organizer_id_in_slice (ids ++ target ∷ []) other
      ≡ (if other == target then true else is_organizer_id_in_slice ids other)
unfolding is_organizer_id_in_slice
is_organizer_id_in_slice-append [] target other =
    ground (arith, eq_iff target other, eq_iff other target)
is_organizer_id_in_slice-append (id ∷ ids) target other =
    ground (
      arith,
      is_organizer_id_in_slice-append ids target other,
      eq_iff other target,
      eq_iff id other,
    )

-- The organizers that are left after a removal that is not refused are not none, do not hold the
-- removed member, and hold every other member that was one.
pub remaining_organizers-ok :
    (ids out : List MemberId) (target : MemberId)
    → remaining_organizers ids target ≡ ok out
    → (out ≢ [])
      × ((other : MemberId)
          → is_organizer_id_in_slice out other
            ≡ (if other == target then false else is_organizer_id_in_slice ids other))
unfolding remaining_organizers
remaining_organizers-ok ids out target h =
    let left : without target ids ≡ out = ground arith in
    (λ e. ground arith, λ other. rw (← left) (is_organizer_id_in_slice-without ids target other))

remaining_organizers-ne-nil :
    (ids out : List MemberId) (target : MemberId)
    → remaining_organizers ids target ≡ ok out
    → out ≢ []
unfolding remaining_organizers
remaining_organizers-ne-nil ids out target h e = ground arith

append-ne-nil : (ids : List MemberId) (x : MemberId) → ids ++ x ∷ [] ≢ []
append-ne-nil [] x e = cc
append-ne-nil (y ∷ ids) x e = cc

module _ (B : Backend) (T : TripLaws B.trips) (caller : MemberId) (id : TripId) (target : MemberId)
    (w : World B) where
  organizers-Effect :
      (t : Trip) (ids : List MemberId)
      → B.trips.get_by_id id w.trips ≡ ok t
      → ids ≢ []
      → Effect B id w (save_and_show B (record t { organizer_member_ids = ids }) w).1
  organizers-Effect t ids found some_left =
      save_and_show-Effect B T w id t (record t { organizer_member_ids = ids }) found
        (record {
          same_id = refl;
          same_creator = refl;
          same_creation = refl;
          status_allowed = stays t.status;
          still_organized = λ _. some_left;
        })

  pub add_trip_organizer-Effect : Effect B id w (add_trip_organizer B caller id target w).1
  unfolding add_trip_organizer
  add_trip_organizer-Effect = elim (Result-cases (load_organized_trip B caller id w)) [
    | inr (x, refused) ↦ rw refused (inl refl)
    | inl (t, loaded) ↦
        rw loaded (elim (Result-cases (or_invalid_member (B.members.get_by_id target w.members))) [
          | inr (x, unknown) ↦ rw unknown (inl refl)
          | inl (m, known) ↦
              rw known (elim (Bool-cases (is_organizer_id_in_slice t.organizer_member_ids target)) [
                | inl there ↦ rw there (inl refl)
                | inr new ↦ rw new (
                    organizers-Effect t (t.organizer_member_ids ++ target ∷ [])
                      (load_organized_trip-ok B caller id w t loaded).0
                      (append-ne-nil t.organizer_member_ids target))
              ])
        ])
  ]

  pub remove_trip_organizer-Effect : Effect B id w (remove_trip_organizer B caller id target w).1
  unfolding remove_trip_organizer
  remove_trip_organizer-Effect = elim (Result-cases (load_organized_trip B caller id w)) [
    | inr (x, refused) ↦ rw refused (inl refl)
    | inl (t, loaded) ↦
        rw loaded (elim (Bool-cases (is_organizer_id_in_slice t.organizer_member_ids target)) [
          | inr absent ↦ rw absent (inl refl)
          | inl there ↦
              rw there (elim (Result-cases (remaining_organizers t.organizer_member_ids target)) [
                | inr (x, last) ↦ rw last (inl refl)
                | inl (out, left) ↦ rw left (
                    organizers-Effect t out (load_organized_trip-ok B caller id w t loaded).0
                      (remaining_organizers-ne-nil t.organizer_member_ids out target left))
              ])
        ])
  ]

module _ (B : Backend) (caller : MemberId) (id : TripId) (target : MemberId) (w : World B) where
  pub organizers_refused :
      (e : Failure)
      → load_organized_trip B caller id w ≡ err e
      → (add_trip_organizer B caller id target w ≡ (err e, w))
        × (remove_trip_organizer B caller id target w ≡ (err e, w))
  unfolding add_trip_organizer remove_trip_organizer
  organizers_refused e h = (rw h refl, rw h refl)
