-- ===== src/Trips/Access.antt =====
-- Who may see and who may change a trip: isTripVisibleToCaller, isDraftVisibleToCaller, isOrganizer
-- and isOrganizerIDInSlice of service.go, and the lookup with which every method begins.
pub mod Guards
use eastbay_overland_rally_p.Prelude.{
  Bool, true, false, List, [], ◌∷◌, ◌==◌, string_eq, if◌then◌else◌,
}
use eastbay_overland_rally_p.Domain.{
  Trip, TripId, MemberId, TripStatus, draft, published, canceled, other_status, DraftVisibility,
  private_draft, public_draft, other_visibility, is_draft,
}
use eastbay_overland_rally_p.Ports.{Result, ok, err, trip_not_found, require, ◌>>=◌, ◌>>◌}
use eastbay_overland_rally_p.Service.{Backend, World}
use eastbay_overland_rally_p.Trips.Types.{no_such_trip}

unfoldable pub is_organizer_id_in_slice : List MemberId → MemberId → Bool
is_organizer_id_in_slice [] target = false
is_organizer_id_in_slice (id ∷ ids) target =
    if id == target then true else is_organizer_id_in_slice ids target

unfoldable pub is_organizer : Trip → MemberId → Bool
unfolding is_organizer_id_in_slice
is_organizer t caller = is_organizer_id_in_slice t.organizer_member_ids caller

abbrev visible_draft : DraftVisibility → Trip → MemberId → Bool
visible_draft public_draft t caller = is_organizer t caller
visible_draft private_draft t caller = t.creator_member_id == caller
visible_draft (other_visibility _) t caller = false

unfoldable pub is_draft_visible_to_caller : Trip → MemberId → Bool
unfolding is_organizer
is_draft_visible_to_caller t caller =
    if is_draft t.status then visible_draft t.draft_visibility t caller else false

abbrev visible_trip : TripStatus → Trip → MemberId → Bool
visible_trip published t caller = true
visible_trip canceled t caller = true
visible_trip draft t caller = visible_draft t.draft_visibility t caller
visible_trip (other_status _) t caller = false

unfoldable pub is_trip_visible_to_caller : Trip → MemberId → Bool
unfolding is_organizer
is_trip_visible_to_caller t caller = visible_trip t.status t caller

-- ErrNotFound of the port becomes the 404 of the service; other errors pass through.
abbrev pub or_no_such_trip : Result Trip → Result Trip
or_no_such_trip (err trip_not_found) = err no_such_trip
or_no_such_trip r = r

module _ (B : Backend) where
  unfoldable pub load_trip : TripId → World B → Result Trip
  load_trip id w = or_no_such_trip (B.trips.get_by_id id w.trips)

  -- the lookup and the visibility test: a trip that the caller must not see is not found
  unfoldable pub load_visible_trip : MemberId → TripId → World B → Result Trip
  unfolding load_trip
  load_visible_trip caller id w = do
    t ← load_trip id w
    require (is_trip_visible_to_caller t caller) no_such_trip
    ok t

  -- the same, and the test that the caller organizes the trip
  unfoldable pub load_organized_trip : MemberId → TripId → World B → Result Trip
  unfolding load_visible_trip
  load_organized_trip caller id w = do
    t ← load_visible_trip caller id w
    require (is_organizer t caller) no_such_trip
    ok t
