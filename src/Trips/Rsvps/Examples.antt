-- ===== src/Trips/Rsvps/Examples.antt =====
-- SetMyRSVP on the small planner.
use eastbay_overland_rally_p.Prelude.{pos, ◌≡◌, refl, [], none, arith}
use eastbay_overland_rally_p.Prelude.Assoc.{lookup, insert}
use eastbay_overland_rally_p.Domain.{MyRsvp, rsvp_yes}
use eastbay_overland_rally_p.Ports.{ok, err, backend}
use eastbay_overland_rally_p.Ports.Laws.{RsvpLaws}
use eastbay_overland_rally_p.Memory.Trips.{get_by_id, save}
use eastbay_overland_rally_p.Memory.Trips.Contract.{memory_trips-TripLaws}
use eastbay_overland_rally_p.Memory.Rsvps.{get, upsert, count_yes_by_trip}
use eastbay_overland_rally_p.Memory.Rsvps.Contract.{memory_rsvps-RsvpLaws}
use eastbay_overland_rally_p.Demo.{at, demo, start, live_trip, broken, broken_start, broken_rsvps}
use eastbay_overland_rally_p.Trips.Access.{load_visible_trip, is_trip_visible_to_caller}
use eastbay_overland_rally_p.Trips.Voting.{check_open, new_attendance, check_room}
use eastbay_overland_rally_p.Trips.Queries.{get_my_rsvp_for_trip}
use eastbay_overland_rally_p.Trips.Rsvps.{set_my_rsvp, answer_rsvp, change_rsvp, write_rsvp}
use eastbay_overland_rally_p.Trips.Rsvps.Outcome.{Accepted, voted}
use eastbay_overland_rally_p.Trips.Rsvps.Attendance.{Fits, set_my_rsvp-Fits}
use eastbay_overland_rally_p.Trips.Rsvps.Projection.{
  InSync, set_my_rsvp-InSync, set_my_rsvp_half_done,
}
use eastbay_overland_rally_p.Trips.Rsvps.Replies.{
  IsKeyed, set_my_rsvp_idem, get_my_rsvp_for_trip-set_my_rsvp,
}

abbrev pub bob_comes : MyRsvp
bob_comes = record {
  trip_id = "t-live";
  member_id = "m-bob";
  response = rsvp_yes;
  updated_at = at 101;
}

pub bob_sets_yes : (set_my_rsvp demo "m-bob" "t-live" rsvp_yes start).0 ≡ ok bob_comes
unfolding set_my_rsvp answer_rsvp change_rsvp write_rsvp load_visible_trip is_trip_visible_to_caller
    check_open new_attendance check_room get upsert count_yes_by_trip get_by_id save lookup insert
bob_sets_yes = refl

set_my_rsvp-Fits_example :
    Fits demo memory_rsvps-RsvpLaws "m-bob" "t-live" rsvp_yes
      (pos 2)
      (set_my_rsvp demo "m-bob" "t-live" rsvp_yes start).1.rsvps
unfolding get_by_id lookup count_yes_by_trip
set_my_rsvp-Fits_example =
    set_my_rsvp-Fits demo memory_rsvps-RsvpLaws "m-bob" "t-live" rsvp_yes start live_trip (pos 2)
      refl refl (0, refl, omega arith)

set_my_rsvp-InSync_example :
    InSync demo "t-live" (set_my_rsvp demo "m-bob" "t-live" rsvp_yes start).1
unfolding get_by_id lookup count_yes_by_trip
set_my_rsvp-InSync_example =
    set_my_rsvp-InSync demo memory_trips-TripLaws memory_rsvps-RsvpLaws "m-bob" "t-live" rsvp_yes
      start bob_comes bob_sets_yes (live_trip, 0, refl, refl, refl, refl)

live-IsKeyed :
    IsKeyed demo memory_trips-TripLaws memory_rsvps-RsvpLaws "m-bob" "t-live" rsvp_yes start
unfolding get_by_id lookup
live-IsKeyed t h = ground arith

set_my_rsvp_idem_example :
    set_my_rsvp demo "m-bob" "t-live" rsvp_yes (set_my_rsvp demo "m-bob" "t-live" rsvp_yes start).1
    ≡ (ok bob_comes, (set_my_rsvp demo "m-bob" "t-live" rsvp_yes start).1)
set_my_rsvp_idem_example =
    set_my_rsvp_idem demo memory_trips-TripLaws memory_rsvps-RsvpLaws "m-bob" "t-live" rsvp_yes
      start bob_comes live-IsKeyed bob_sets_yes

get_my_rsvp_for_trip-set_my_rsvp_example :
    get_my_rsvp_for_trip demo "m-bob" "t-live" (set_my_rsvp demo "m-bob" "t-live" rsvp_yes start).1
    ≡ ok bob_comes
get_my_rsvp_for_trip-set_my_rsvp_example =
    get_my_rsvp_for_trip-set_my_rsvp demo memory_trips-TripLaws memory_rsvps-RsvpLaws "m-bob"
      "t-live" rsvp_yes start bob_comes live-IsKeyed bob_sets_yes

broken-RsvpLaws : RsvpLaws broken_rsvps
broken-RsvpLaws = record {
  get-upsert = λ r s t m h. cc;
  upsert_error = λ r s e h. refl;
  count-upsert = λ r s n h c. cc;
}

bob-Accepted : Accepted broken "m-bob" "t-live" rsvp_yes broken_start live_trip (pos 2) 0 none
unfolding load_visible_trip is_trip_visible_to_caller check_open new_attendance check_room get
    count_yes_by_trip get_by_id lookup
bob-Accepted = record { seen = refl; opened = refl; known = refl; counted = refl; room = refl }

set_my_rsvp_half_done_example :
    ((set_my_rsvp broken "m-bob" "t-live" rsvp_yes broken_start).0
      ≡ err (backend "connection lost"))
    × ((set_my_rsvp broken "m-bob" "t-live" rsvp_yes broken_start).1.rsvps ≡ [])
    × (get_by_id "t-live" (set_my_rsvp broken "m-bob" "t-live" rsvp_yes broken_start).1.trips
        ≡ ok (voted broken "m-bob" "t-live" rsvp_yes broken_start live_trip (pos 1)))
unfolding save new_attendance
set_my_rsvp_half_done_example =
    set_my_rsvp_half_done broken memory_trips-TripLaws broken-RsvpLaws "m-bob" "t-live" rsvp_yes
      broken_start live_trip (pos 2) 0 none (backend "connection lost") bob-Accepted tt refl refl
      refl
