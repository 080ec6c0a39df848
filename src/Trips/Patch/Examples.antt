-- ===== src/Trips/Patch/Examples.antt =====
-- Patches of the trip of the small planner.
use eastbay_overland_rally_p.Prelude.{pos, ◌≡◌, refl, List, [], ◌∷◌, some, map, All, ◌≤◌, String}
use eastbay_overland_rally_p.Prelude.Assoc.{lookup, insert}
use eastbay_overland_rally_p.Domain.{Trip, TripArtifact}
use eastbay_overland_rally_p.Ports.{ok}
use eastbay_overland_rally_p.Demo.{at, live_trip, gpx_track, schedule_sheet}
use eastbay_overland_rally_p.Trips.Types.{unspecified, value, UpdateTripInput}
use eastbay_overland_rally_p.Trips.Patch.{
  apply_name, apply_capacity, apply_artifact_ids, check_dates, patch_trip, reorder_artifacts_by_id,
  index_artifacts, pick_artifacts,
}
use eastbay_overland_rally_p.Trips.Patch.Artifacts.{
  IsLast, reorder_artifacts_by_id-ok, reorder_artifacts_by_id_total,
}
use eastbay_overland_rally_p.Trips.Patch.Bounds.{patch_trip-dates, Holds, patch_trip-capacity}

abbrev longer : UpdateTripInput
longer = record {
  name = unspecified;
  description = unspecified;
  start_date = unspecified;
  end_date = value (at 30);
  capacity_rigs = value (pos 5);
  difficulty_text = unspecified;
  meeting_location = unspecified;
  comms_requirements_text = unspecified;
  recommended_requirements_text = unspecified;
  artifact_ids = unspecified;
}

abbrev longer_trip : Trip
longer_trip = record live_trip { end_date = some (at 30); capacity_rigs = some (pos 5) }

longer_applies : patch_trip longer live_trip ≡ ok longer_trip
unfolding patch_trip apply_name apply_capacity apply_artifact_ids check_dates
longer_applies = refl

patch_trip-dates_example : 10 ≤ 30
patch_trip-dates_example =
    patch_trip-dates longer live_trip longer_trip (at 10) (at 30) longer_applies refl refl

patch_trip-capacity_example : (longer_trip.capacity_rigs ≡ some (pos 5)) × Holds live_trip (pos 5)
patch_trip-capacity_example =
    patch_trip-capacity longer live_trip longer_trip (pos 5) longer_applies refl

abbrev both : List TripArtifact
both = gpx_track ∷ schedule_sheet ∷ []

abbrev swapped : List String
swapped = "a2" ∷ "a1" ∷ []

swapped_applies : reorder_artifacts_by_id both swapped ≡ ok (schedule_sheet ∷ gpx_track ∷ [])
unfolding reorder_artifacts_by_id index_artifacts pick_artifacts lookup insert
swapped_applies = refl

reorder_artifacts_by_id-ok_example :
    (map (λ a. a.artifact_id) (schedule_sheet ∷ gpx_track ∷ []) ≡ swapped)
    × All (IsLast both) (schedule_sheet ∷ gpx_track ∷ [])
reorder_artifacts_by_id-ok_example = reorder_artifacts_by_id-ok both swapped _ swapped_applies

reorder_artifacts_by_id_total_example :
    (out : List TripArtifact) × (reorder_artifacts_by_id both swapped ≡ ok out)
reorder_artifacts_by_id_total_example =
    reorder_artifacts_by_id_total both swapped ((schedule_sheet, refl), ((gpx_track, refl), tt))
