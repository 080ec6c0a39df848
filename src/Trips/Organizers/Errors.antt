-- ===== src/Trips/Organizers/Errors.antt =====
-- The errors of AddTripOrganizer and RemoveTripOrganizer.
use eastbay_overland_rally_p.Prelude.{
  List, [], ◌∷◌, ◌++◌, length, refl, inl, inr, Bool-cases, ◌==◌, nat_eq, string_eq,
}
use eastbay_overland_rally_p.Domain.{TripId, MemberId, Member}
use eastbay_overland_rally_p.Ports.{
  Result, ok, err, app, backend, trip_not_found, trip_already_exists, member_not_found,
  subject_already_bound, member_already_exists, rsvp_not_found,
}
use eastbay_overland_rally_p.Ports.Errors.{statuses, Within}
use eastbay_overland_rally_p.Service.{Backend, lift, reads}
use eastbay_overland_rally_p.Service.Errors.{Throws, always, bind-Throws, ForeignErrors}
use eastbay_overland_rally_p.Trips.Errors.{
  load_organized_trip-Within, trip_details_for_trip-Within, save_and_show-Throws,
}
use eastbay_overland_rally_p.Trips.Access.{load_organized_trip, is_organizer_id_in_slice}
use eastbay_overland_rally_p.Trips.Organizers.{
  or_invalid_member, without, non_empty, remaining_organizers, add_trip_organizer,
  remove_trip_organizer,
}

or_invalid_member-Within : (r : Result Member) → Within [] r → Within statuses (or_invalid_member r)
or_invalid_member-Within (ok a) h = tt
or_invalid_member-Within (err (app e)) h = absurd cc
or_invalid_member-Within (err (backend text)) h = tt
or_invalid_member-Within (err trip_not_found) h = tt
or_invalid_member-Within (err trip_already_exists) h = tt
or_invalid_member-Within (err member_not_found) h = refl
or_invalid_member-Within (err subject_already_bound) h = tt
or_invalid_member-Within (err member_already_exists) h = tt
or_invalid_member-Within (err rsvp_not_found) h = tt

non_empty-Within : (ids : List MemberId) → Within statuses (non_empty ids)
non_empty-Within [] = refl
non_empty-Within (id ∷ ids) = tt

remaining_organizers-Within :
    (ids : List MemberId) (target : MemberId) → Within statuses (remaining_organizers ids target)
unfolding remaining_organizers
remaining_organizers-Within ids target = elim (Bool-cases (length ids == 1)) [
  | inl one ↦ rw one refl
  | inr more ↦ rw more (non_empty-Within (without target ids))
]

module _ {B : Backend} (F : ForeignErrors B) (caller : MemberId) (id : TripId)
    (target : MemberId) where
  pub add_trip_organizer-Throws : Throws statuses (add_trip_organizer B caller id target)
  unfolding add_trip_organizer
  add_trip_organizer-Throws =
      bind-Throws statuses (reads {B = B} (load_organized_trip B caller id)) _
        (always statuses (λ w. load_organized_trip-Within statuses refl F id w caller))
        λ t.
          bind-Throws statuses
            (reads {B = B} (λ w. or_invalid_member (B.members.get_by_id target w.members))) _
            (always statuses λ w.
              or_invalid_member-Within (B.members.get_by_id target w.members)
                (F.member_by_id target w.members))
            λ m. elim (Bool-cases (is_organizer_id_in_slice t.organizer_member_ids target)) [
              | inl present ↦
                  rw present (always statuses (trip_details_for_trip-Within F statuses t))
              | inr absent ↦ rw absent (
                  save_and_show-Throws F statuses
                    (record t { organizer_member_ids = t.organizer_member_ids ++ target ∷ [] }))
            ]

  pub remove_trip_organizer-Throws : Throws statuses (remove_trip_organizer B caller id target)
  unfolding remove_trip_organizer
  remove_trip_organizer-Throws =
      bind-Throws statuses (reads {B = B} (load_organized_trip B caller id)) _
        (always statuses (λ w. load_organized_trip-Within statuses refl F id w caller))
        λ t. elim (Bool-cases (is_organizer_id_in_slice t.organizer_member_ids target)) [
          | inr absent ↦ rw absent (always statuses (trip_details_for_trip-Within F statuses t))
          | inl present ↦ rw present (
              bind-Throws statuses
                (lift {B = B} (remaining_organizers t.organizer_member_ids target)) _
                (always statuses λ w. remaining_organizers-Within t.organizer_member_ids target)
                (λ out. save_and_show-Throws F statuses (record t { organizer_member_ids = out })))
        ]
