-- ===== src/Trips/Publishing/Examples.antt =====
-- PublishTrip on the small planner.
use eastbay_overland_rally_p.Prelude.{◌≡◌, ◌↔◌, refl, [], ◌∷◌}
use eastbay_overland_rally_p.Prelude.Assoc.{lookup, insert}
use eastbay_overland_rally_p.Domain.{Trip, TripDetails}
use eastbay_overland_rally_p.Ports.{ok}
use eastbay_overland_rally_p.Demo.{demo, start, ready_draft, shown, shown_member}
use eastbay_overland_rally_p.Memory.Trips.{get_by_id, save}
use eastbay_overland_rally_p.Memory.Rsvps.{list_by_trip}
use eastbay_overland_rally_p.Trips.Access.{
  load_organized_trip, load_visible_trip, load_trip, is_trip_visible_to_caller, is_organizer,
  is_organizer_id_in_slice,
}
use eastbay_overland_rally_p.Trips.Views.{
  trip_details_for_trip, load_member_summaries_sorted, trip_rsvp_summary_for_trip,
  load_organizer_summaries, to_domain_details, to_domain_summary,
}
use eastbay_overland_rally_p.Sorting.{sort_slice}
use eastbay_overland_rally_p.Text.{trim_space, join}
use eastbay_overland_rally_p.Format.{format_int, format_nat, format_date, date_of_day}
use eastbay_overland_rally_p.Memory.Members
use eastbay_overland_rally_p.Trips.Publishing.{
  required_publish_fields_missing, is_text, publish_draft, publish_status, publish_trip,
  announcement_copy_from_trip,
}
use eastbay_overland_rally_p.Trips.Publishing.Readiness.{
  IsReady, required_publish_fields_missing_iff,
}
use eastbay_overland_rally_p.Trips.Publishing.Announced.{Announced, publish_trip-ok}

required_publish_fields_missing_iff_example :
    (required_publish_fields_missing ready_draft ≡ []) ↔ IsReady ready_draft
required_publish_fields_missing_iff_example = required_publish_fields_missing_iff ready_draft

abbrev ready_details : TripDetails
ready_details = shown ready_draft (shown_member "m-ann" "Ann" ∷ [])

ready_publishes :
    (publish_trip demo "m-ann" "t-ready" start).0
    ≡ ok (ready_details, announcement_copy_from_trip ready_details)
unfolding publish_trip publish_status publish_draft load_organized_trip load_visible_trip load_trip
    is_trip_visible_to_caller is_organizer is_organizer_id_in_slice get_by_id save lookup insert
    required_publish_fields_missing is_text trim_space trip_details_for_trip list_by_trip
    load_member_summaries_sorted trip_rsvp_summary_for_trip load_organizer_summaries
    to_domain_details to_domain_summary sort_slice Members.get_by_id
ready_publishes = refl

publish_trip-ok_example :
    (t : Trip) × (load_organized_trip demo "m-ann" "t-ready" start ≡ ok t)
    × Announced demo "m-ann" "t-ready" start t ready_details
        (announcement_copy_from_trip ready_details)
        (publish_trip demo "m-ann" "t-ready" start).1
publish_trip-ok_example =
    publish_trip-ok demo "m-ann" "t-ready" start ready_details
      (announcement_copy_from_trip ready_details) ready_publishes

ready_announcement :
    announcement_copy_from_trip ready_details
    ≡ "Trip: Rubicon\nDates: 0000-01-01 to 0000-01-01\nCapacity: 2 rigs\nMeet: Loon Lake\n\nThree days\n\nRSVP in the app once you’re ready."
unfolding announcement_copy_from_trip join is_text trim_space format_int format_nat format_date
    date_of_day
ready_announcement = refl
