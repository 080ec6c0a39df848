-- ===== src/Trips/Organizers.antt =====
-- AddTripOrganizer and RemoveTripOrganizer of service.go.
pub mod Errors
pub mod Membership
pub mod Changes
mod Examples
use eastbay_overland_rally_p.Prelude.{
  String, Bool, true, false, not, List, [], ◌∷◌, ◌++◌, length, ◌==◌, nat_eq, string_eq,
  if◌then◌else◌,
}
use eastbay_overland_rally_p.Domain.{Trip, TripId, MemberId, TripDetails, Member}
use eastbay_overland_rally_p.Ports.{Result, ok, err, Failure, member_not_found}
use eastbay_overland_rally_p.Service.{Backend, Exec, lift, reads, ◌>>=◌, ◌>>◌}
use eastbay_overland_rally_p.Trips.Types.{plain_error, validation_error}
use eastbay_overland_rally_p.Trips.Access.{load_organized_trip, is_organizer_id_in_slice}
use eastbay_overland_rally_p.Trips.Views.{trip_details_for_trip}
use eastbay_overland_rally_p.Trips.Saving.{save_and_show}

abbrev or_invalid_member : Result Member → Result Member
or_invalid_member (err member_not_found) =
    err (validation_error "invalid memberId" "memberId" "member not found")
or_invalid_member r = r

abbrev pub last_organizer : Failure
last_organizer = plain_error 409 "LAST_ORGANIZER" "cannot remove the last organizer"

-- the loop of RemoveTripOrganizer
unfoldable pub without : MemberId → List MemberId → List MemberId
without target [] = []
without target (id ∷ ids) =
    let rest = without target ids in if id == target then rest else id ∷ rest

abbrev non_empty : List MemberId → Result (List MemberId)
non_empty [] = err last_organizer
non_empty (id ∷ ids) = ok (id ∷ ids)

-- the organizers that are left, unless it would be none
unfoldable pub remaining_organizers : List MemberId → MemberId → Result (List MemberId)
unfolding without
remaining_organizers ids target =
    if length ids == 1 then err last_organizer else non_empty (without target ids)

module _ (B : Backend) where
  pub add_trip_organizer : MemberId → TripId → MemberId → Exec B TripDetails
  add_trip_organizer caller trip_id target = do
    t ← reads (load_organized_trip B caller trip_id)
    _ ← reads (λ w. or_invalid_member (B.members.get_by_id target w.members))
    if is_organizer_id_in_slice t.organizer_member_ids target
        then reads (trip_details_for_trip B t)
        else save_and_show B
            (record t { organizer_member_ids = t.organizer_member_ids ++ target ∷ [] })

  pub remove_trip_organizer : MemberId → TripId → MemberId → Exec B TripDetails
  remove_trip_organizer caller trip_id target = do
    t ← reads (load_organized_trip B caller trip_id)
    if not (is_organizer_id_in_slice t.organizer_member_ids target)
        then reads (trip_details_for_trip B t)
        else do
          out ← lift (remaining_organizers t.organizer_member_ids target)
          save_and_show B (record t { organizer_member_ids = out })
