-- ===== src/Trips/Organizers/Examples.antt =====
-- The organizers of the published trip of the small planner.
use eastbay_overland_rally_p.Prelude.{
  ◌≡◌, ◌≢◌, refl, true, false, List, [], ◌∷◌, arith, ◌==◌, string_eq, if◌then◌else◌,
}
use eastbay_overland_rally_p.Prelude.Assoc.{lookup, insert}
use eastbay_overland_rally_p.Sorting.{sort_slice}
use eastbay_overland_rally_p.Domain.{Trip, MemberId, MemberSummary}
use eastbay_overland_rally_p.Ports.{ok}
use eastbay_overland_rally_p.Service.{World}
use eastbay_overland_rally_p.Demo.{demo, start, live_trip, shown, shown_member}
use eastbay_overland_rally_p.Memory.Trips.{get_by_id, save}
use eastbay_overland_rally_p.Memory.Trips.Contract.{memory_trips-TripLaws}
use eastbay_overland_rally_p.Memory.Rsvps.{list_by_trip}
use eastbay_overland_rally_p.Memory.Members
use eastbay_overland_rally_p.Trips.Access.{
  load_organized_trip, load_visible_trip, load_trip, is_trip_visible_to_caller, is_organizer,
  is_organizer_id_in_slice,
}
use eastbay_overland_rally_p.Trips.Views.{
  trip_details_for_trip, load_member_summaries_sorted, trip_rsvp_summary_for_trip,
  load_organizer_summaries, to_domain_details, to_domain_summary,
}
use eastbay_overland_rally_p.Trips.Organizers.{
  add_trip_organizer, remove_trip_organizer, remaining_organizers, without,
}
use eastbay_overland_rally_p.Trips.Organizers.Membership.{remaining_organizers-ok}
use eastbay_overland_rally_p.Trips.Organizers.Changes.{
  Reorganized, add_trip_organizer-Reorganized, remove_trip_organizer-Reorganized,
}

abbrev ann : MemberSummary
ann = shown_member "m-ann" "Ann"

abbrev bob : MemberSummary
bob = shown_member "m-bob" "Bob"

abbrev shared_trip : Trip
shared_trip = record live_trip { organizer_member_ids = "m-ann" ∷ "m-bob" ∷ [] }

abbrev shared : World demo
shared = record start { trips = ("t-live", shared_trip) ∷ [] }

ann_adds_bob :
    (add_trip_organizer demo "m-ann" "t-live" "m-bob" start).0
    ≡ ok (shown live_trip (ann ∷ bob ∷ []))
unfolding add_trip_organizer load_organized_trip load_visible_trip load_trip
    is_trip_visible_to_caller is_organizer is_organizer_id_in_slice get_by_id save lookup insert
    trip_details_for_trip list_by_trip load_member_summaries_sorted trip_rsvp_summary_for_trip
    load_organizer_summaries to_domain_details to_domain_summary sort_slice Members.get_by_id
ann_adds_bob = refl

ann_removes_bob :
    (remove_trip_organizer demo "m-ann" "t-live" "m-bob" shared).0 ≡ ok (shown live_trip (ann ∷ []))
unfolding remove_trip_organizer remaining_organizers without load_organized_trip load_visible_trip
    load_trip is_trip_visible_to_caller is_organizer is_organizer_id_in_slice get_by_id save lookup
    insert trip_details_for_trip list_by_trip load_member_summaries_sorted
    trip_rsvp_summary_for_trip load_organizer_summaries to_domain_details to_domain_summary
    sort_slice Members.get_by_id
ann_removes_bob = refl

start-keyed : (t : Trip) → get_by_id "t-live" start.trips ≡ ok t → t.id ≡ "t-live"
unfolding get_by_id lookup
start-keyed t h = ground arith

shared-keyed : (t : Trip) → get_by_id "t-live" shared.trips ≡ ok t → t.id ≡ "t-live"
unfolding get_by_id lookup
shared-keyed t h = ground arith

add_trip_organizer-Reorganized_example :
    Reorganized demo "m-ann" "t-live" "m-bob" true start
      (add_trip_organizer demo "m-ann" "t-live" "m-bob" start).1
add_trip_organizer-Reorganized_example =
    add_trip_organizer-Reorganized demo memory_trips-TripLaws "m-ann" "t-live" "m-bob" start
      (shown live_trip (ann ∷ bob ∷ [])) start-keyed ann_adds_bob

remove_trip_organizer-Reorganized_example :
    Reorganized demo "m-ann" "t-live" "m-bob" false shared
      (remove_trip_organizer demo "m-ann" "t-live" "m-bob" shared).1
remove_trip_organizer-Reorganized_example =
    remove_trip_organizer-Reorganized demo memory_trips-TripLaws "m-ann" "t-live" "m-bob" shared
      (shown live_trip (ann ∷ [])) shared-keyed ann_removes_bob

abbrev ann_alone : List MemberId
ann_alone = "m-ann" ∷ []

abbrev ann_and_bob : List MemberId
ann_and_bob = "m-ann" ∷ "m-bob" ∷ []

bob_leaves : remaining_organizers ann_and_bob "m-bob" ≡ ok ann_alone
unfolding remaining_organizers without
bob_leaves = refl

remaining_organizers-ok_example :
    (ann_alone ≢ [])
    × ((other : MemberId)
        → is_organizer_id_in_slice ann_alone other
          ≡ (if other == "m-bob" then false else is_organizer_id_in_slice ann_and_bob other))
remaining_organizers-ok_example = remaining_organizers-ok ann_and_bob ann_alone "m-bob" bob_leaves
