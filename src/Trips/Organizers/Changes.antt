-- ===== src/Trips/Organizers/Changes.antt =====
-- Who organizes a trip after a successful AddTripOrganizer or RemoveTripOrganizer.
use eastbay_overland_rally_p.Prelude.{
  ◌≡◌, ◌∙◌, inl, inr, true, false, Bool, List, [], ◌∷◌, ◌++◌, arith, Bool-cases, eq_iff, ◌==◌,
  string_eq, if◌then◌else◌,
}
use eastbay_overland_rally_p.Domain.{Trip, TripId, MemberId, TripDetails}
use eastbay_overland_rally_p.Ports.{ok, Result-cases}
use eastbay_overland_rally_p.Ports.Laws.{TripLaws}
use eastbay_overland_rally_p.Service.{Backend, World}
use eastbay_overland_rally_p.Trips.Access.{
  load_organized_trip, is_organizer_id_in_slice, is_organizer,
}
use eastbay_overland_rally_p.Trips.Access.Guards.{load_organized_trip-ok}
use eastbay_overland_rally_p.Trips.Saving.{save_and_show}
use eastbay_overland_rally_p.Trips.Evolution.{stamped, save_and_show-ok}
use eastbay_overland_rally_p.Trips.Organizers.{
  or_invalid_member, remaining_organizers, add_trip_organizer, remove_trip_organizer,
}
use eastbay_overland_rally_p.Trips.Organizers.Membership.{
  is_organizer_id_in_slice-append, remaining_organizers-ok,
}

-- Before and after, the trip is stored under the identifier; the caller organized it, and the list of
-- its organizers differs in one member only, who is in it afterwards or not.
pub record Reorganized (B : Backend) (caller : MemberId) (id : TripId) (target : MemberId)
    (there : Bool) (w w' : World B) : Type 0 where
  pub old : Trip
  pub new : Trip
  pub found : B.trips.get_by_id id w.trips ≡ ok old
  pub stored : B.trips.get_by_id id w'.trips ≡ ok new
  pub by_organizer : is_organizer_id_in_slice old.organizer_member_ids caller ≡ true
  pub one_changed :
      (other : MemberId)
      → is_organizer_id_in_slice new.organizer_member_ids other ≡ (
          if other == target
          then there
          else is_organizer_id_in_slice old.organizer_member_ids other)

unchanged :
    (ids : List MemberId) (target other : MemberId)
    → is_organizer_id_in_slice ids other ≡ (
        if other == target
        then is_organizer_id_in_slice ids target
        else is_organizer_id_in_slice ids other)
unchanged ids target other = ground (arith, eq_iff other target)

module _ (B : Backend) (T : TripLaws B.trips) (caller : MemberId) (id : TripId) (target : MemberId)
    (w : World B) where
  organized-by :
      (t : Trip)
      → load_organized_trip B caller id w ≡ ok t
      → is_organizer_id_in_slice t.organizer_member_ids caller ≡ true
  organized-by t h = unfold is_organizer in (load_organized_trip-ok B caller id w t h).2

  kept-Reorganized :
      (t : Trip)
      → load_organized_trip B caller id w ≡ ok t
      → Reorganized B caller id target (is_organizer_id_in_slice t.organizer_member_ids target) w w
  kept-Reorganized t h = record {
    old = t;
    new = t;
    found = (load_organized_trip-ok B caller id w t h).0;
    stored = (load_organized_trip-ok B caller id w t h).0;
    by_organizer = organized-by t h;
    one_changed = unchanged t.organizer_member_ids target;
  }

  saved-Reorganized :
      (t : Trip) (ids : List MemberId) (d : TripDetails) (there : Bool)
      → t.id ≡ id
      → load_organized_trip B caller id w ≡ ok t
      → (save_and_show B (record t { organizer_member_ids = ids }) w).0 ≡ ok d
      → ((other : MemberId)
          → is_organizer_id_in_slice ids other ≡ (
              if other == target
              then there
              else is_organizer_id_in_slice t.organizer_member_ids other))
      → Reorganized B caller id target there w
          (save_and_show B (record t { organizer_member_ids = ids }) w).1
  saved-Reorganized t ids d there keyed h done one =
      let v = record t { organizer_member_ids = ids } in
      let (saved, after) = save_and_show-ok B T w v d done in
      record {
        old = t;
        new = stamped B T w v;
        found = (load_organized_trip-ok B caller id w t h).0;
        stored =
            rw after (
              T.get-save (stamped B T w v) w.trips id saved
              ∙ ground (arith, eq_iff t.id id, keyed));
        by_organizer = organized-by t h;
        one_changed = one;
      }

  added-Reorganized :
      (t : Trip) (d : TripDetails)
      → t.id ≡ id
      → load_organized_trip B caller id w ≡ ok t
      → (add_trip_organizer B caller id target w).0 ≡ ok d
      → Reorganized B caller id target true w (add_trip_organizer B caller id target w).1
  unfolding add_trip_organizer
  added-Reorganized t d keyed loaded =
      rw loaded (elim (Result-cases (or_invalid_member (B.members.get_by_id target w.members))) [
        | inr (x, unknown) ↦ rw unknown (λ h. absurd (ground arith))
        | inl (m, known) ↦
            rw known (elim (Bool-cases (is_organizer_id_in_slice t.organizer_member_ids target)) [
              | inl there ↦ rw there (λ h. rw there at (kept-Reorganized t loaded))
              | inr new ↦ rw new (λ h.
                  saved-Reorganized t (t.organizer_member_ids ++ target ∷ []) d true keyed loaded h
                    (is_organizer_id_in_slice-append t.organizer_member_ids target))
            ])
      ])

  removed-Reorganized :
      (t : Trip) (d : TripDetails)
      → t.id ≡ id
      → load_organized_trip B caller id w ≡ ok t
      → (remove_trip_organizer B caller id target w).0 ≡ ok d
      → Reorganized B caller id target false w (remove_trip_organizer B caller id target w).1
  unfolding remove_trip_organizer
  removed-Reorganized t d keyed loaded =
      rw loaded (elim (Bool-cases (is_organizer_id_in_slice t.organizer_member_ids target)) [
        | inr absent ↦ rw absent (λ h. rw absent at (kept-Reorganized t loaded))
        | inl there ↦
            rw there (elim (Result-cases (remaining_organizers t.organizer_member_ids target)) [
              | inr (x, last) ↦ rw last (λ h. absurd (ground arith))
              | inl (out, left) ↦ rw left (λ h.
                  saved-Reorganized t out d false keyed loaded h
                    (remaining_organizers-ok t.organizer_member_ids out target left).1)
            ])
      ])

  -- A successful AddTripOrganizer was called by an organizer of the trip stored under the identifier.
  -- Afterwards the new member organizes the trip, and every other member does exactly if it did before. The
  -- condition is that stored trips carry the identifier they are stored under.
  pub add_trip_organizer-Reorganized :
      (d : TripDetails)
      → ((t : Trip) → B.trips.get_by_id id w.trips ≡ ok t → t.id ≡ id)
      → (add_trip_organizer B caller id target w).0 ≡ ok d
      → Reorganized B caller id target true w (add_trip_organizer B caller id target w).1
  add_trip_organizer-Reorganized d keyed h =
      elim (Result-cases (load_organized_trip B caller id w)) [
        | inr (x, refused) ↦ absurd (unfold add_trip_organizer in ground arith)
        | inl (t, loaded) ↦
            added-Reorganized t d (keyed t (load_organized_trip-ok B caller id w t loaded).0) loaded
              h
      ]

  -- A successful RemoveTripOrganizer was called by an organizer of the trip stored under the
  -- identifier. Afterwards the removed member does not organize the trip, and every other member does
  -- exactly if it did before. The condition is that stored trips carry the identifier they are stored
  -- under.
  pub remove_trip_organizer-Reorganized :
      (d : TripDetails)
      → ((t : Trip) → B.trips.get_by_id id w.trips ≡ ok t → t.id ≡ id)
      → (remove_trip_organizer B caller id target w).0 ≡ ok d
      → Reorganized B caller id target false w (remove_trip_organizer B caller id target w).1
  remove_trip_organizer-Reorganized d keyed h =
      elim (Result-cases (load_organized_trip B caller id w)) [
        | inr (x, refused) ↦ absurd (unfold remove_trip_organizer in ground arith)
        | inl (t, loaded) ↦
            removed-Reorganized t d (keyed t (load_organized_trip-ok B caller id w t loaded).0)
              loaded h
      ]
