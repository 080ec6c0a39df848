-- ===== src/Trips/Drafts/Examples.antt =====
-- UpdateTrip on the small planner.
use eastbay_overland_rally_p.Prelude.{◌≡◌, ◌↔◌, refl, [], ◌∷◌, some, pos, arith}
use eastbay_overland_rally_p.Prelude.Assoc.{lookup, insert}
use eastbay_overland_rally_p.Sorting.{sort_slice}
use eastbay_overland_rally_p.Domain.{Trip}
use eastbay_overland_rally_p.Ports.{ok}
use eastbay_overland_rally_p.Demo.{demo, start, live_trip, ready_draft, shown, shown_member}
use eastbay_overland_rally_p.Memory.Trips.{get_by_id, save}
use eastbay_overland_rally_p.Memory.Trips.Contract.{memory_trips-TripLaws}
use eastbay_overland_rally_p.Memory.Rsvps.{list_by_trip}
use eastbay_overland_rally_p.Memory.Members
use eastbay_overland_rally_p.Trips.Types.{unspecified, value, UpdateTripInput}
use eastbay_overland_rally_p.Trips.Access.{load_trip, is_organizer, is_organizer_id_in_slice}
use eastbay_overland_rally_p.Trips.Views.{
  trip_details_for_trip, load_member_summaries_sorted, trip_rsvp_summary_for_trip,
  load_organizer_summaries, to_domain_details, to_domain_summary,
}
use eastbay_overland_rally_p.Trips.Patch.{
  authorize_update, apply_name, apply_capacity, apply_artifact_ids, check_dates, patch_trip,
}
use eastbay_overland_rally_p.Trips.Patch.Authority.{MayUpdate, authorize_update_iff}
use eastbay_overland_rally_p.Trips.Drafts.{update_trip}
use eastbay_overland_rally_p.Trips.Drafts.Updated.{Patched, update_trip-Patched}

abbrev roomier : UpdateTripInput
roomier = record {
  name = unspecified;
  description = unspecified;
  start_date = unspecified;
  end_date = unspecified;
  capacity_rigs = value (pos 5);
  difficulty_text = unspecified;
  meeting_location = unspecified;
  comms_requirements_text = unspecified;
  recommended_requirements_text = unspecified;
  artifact_ids = unspecified;
}

abbrev roomier_trip : Trip
roomier_trip = record live_trip { capacity_rigs = some (pos 5) }

ann_makes_room :
    (update_trip demo "m-ann" "t-live" roomier start).0
    ≡ ok (shown roomier_trip (shown_member "m-ann" "Ann" ∷ []))
unfolding update_trip load_trip authorize_update is_organizer is_organizer_id_in_slice patch_trip
    apply_name apply_capacity apply_artifact_ids check_dates get_by_id save lookup insert
    trip_details_for_trip list_by_trip load_member_summaries_sorted trip_rsvp_summary_for_trip
    load_organizer_summaries to_domain_details to_domain_summary sort_slice Members.get_by_id
ann_makes_room = refl

live-keyed : (t : Trip) → get_by_id "t-live" start.trips ≡ ok t → t.id ≡ "t-live"
unfolding get_by_id lookup
live-keyed t h = ground arith

update_trip-Patched_example :
    Patched demo memory_trips-TripLaws "m-ann" "t-live" roomier start
      (update_trip demo "m-ann" "t-live" roomier start).1
update_trip-Patched_example =
    update_trip-Patched demo memory_trips-TripLaws "m-ann" "t-live" roomier start
      (shown roomier_trip (shown_member "m-ann" "Ann" ∷ [])) live-keyed ann_makes_room

authorize_update_iff_example :
    (authorize_update ready_draft "m-ann" ≡ ok tt) ↔ MayUpdate ready_draft "m-ann"
authorize_update_iff_example = authorize_update_iff ready_draft "m-ann"
