-- ===== src/Trips/Queries.antt =====
-- The methods of service.go that read: ListVisibleTripsForMember, ListMyDraftTrips, GetTripDetails,
-- GetMyRSVPForTrip and GetTripRSVPSummary. None of them returns a new state.
pub mod Errors
pub mod Hidden
mod Examples
use eastbay_overland_rally_p.Prelude.{List, map, Option, none, some, Bool, not}
use eastbay_overland_rally_p.Domain.{
  Trip, TripId, MemberId, TripSummary, TripDetails, TripRsvpSummary, MyRsvp, Rsvp, TripStatus,
  published, canceled, is_draft, is_published,
}
use eastbay_overland_rally_p.Ports.{Result, ok, err, app, rsvp_not_found, require, ◌>>=◌, ◌>>◌}
use eastbay_overland_rally_p.Service.{Backend, World}
use eastbay_overland_rally_p.Trips.Types.{plain_error, not_available}
use eastbay_overland_rally_p.Trips.Access.{load_visible_trip}
use eastbay_overland_rally_p.Trips.Views.{
  to_domain_summary, to_domain_details, load_organizer_summaries, trip_rsvp_summary_for_trip,
  my_rsvp_for_trip, rsvp_summary_for_status,
}

-- errors.Is(err, rsvprepo.ErrNotFound): the caller has not answered
abbrev answer_if_any : Result MyRsvp → Result (Option MyRsvp)
answer_if_any (ok my) = ok (some my)
answer_if_any (err rsvp_not_found) = ok none
answer_if_any (err e) = err e

abbrev pub or_no_rsvp : Result Rsvp → Result Rsvp
or_no_rsvp (err rsvp_not_found) = err (plain_error 404 "RSVP_NOT_FOUND" "rsvp not found")
or_no_rsvp r = r

module _ (B : Backend) where
  pub list_visible_trips_for_member : MemberId → World B → Result (List TripSummary)
  list_visible_trips_for_member _ w = do
    ts ← B.trips.list_published_and_canceled w.trips
    ok (map to_domain_summary ts)

  pub list_my_draft_trips : MemberId → World B → Result (List TripSummary)
  list_my_draft_trips caller w = do
    ts ← B.trips.list_drafts_visible_to caller w.trips
    ok (map to_domain_summary ts)

  my_rsvp_for_status : TripStatus → Trip → MemberId → World B → Result (Option MyRsvp)
  my_rsvp_for_status published t caller w = answer_if_any (my_rsvp_for_trip B t caller w)
  my_rsvp_for_status canceled t caller w = answer_if_any (my_rsvp_for_trip B t caller w)
  my_rsvp_for_status _ t caller w = ok none

  pub get_trip_details : MemberId → TripId → World B → Result TripDetails
  unfolding my_rsvp_for_status
  get_trip_details caller trip_id w = do
    t ← load_visible_trip B caller trip_id w
    orgs ← load_organizer_summaries B t.organizer_member_ids w
    sum ← rsvp_summary_for_status B t.status t w
    my ← my_rsvp_for_status t.status t caller w
    let d = to_domain_details t
    ok (record d {
      organizers = orgs;
      artifacts = t.artifacts;
      rsvp_actions_enabled = is_published t.status;
      rsvp_summary = sum;
      my_rsvp = my;
    })

  unfoldable pub get_my_rsvp_for_trip : MemberId → TripId → World B → Result MyRsvp
  get_my_rsvp_for_trip caller trip_id w = do
    t ← load_visible_trip B caller trip_id w
    require (not (is_draft t.status)) (not_available "rsvp is not available for draft trips")
    rec ← or_no_rsvp (B.rsvps.get trip_id caller w.rsvps)
    ok (record {
      trip_id = trip_id;
      member_id = caller;
      response = rec.status;
      updated_at = rec.updated_at;
    })

  pub get_trip_rsvp_summary : MemberId → TripId → World B → Result TripRsvpSummary
  get_trip_rsvp_summary caller trip_id w = do
    t ← load_visible_trip B caller trip_id w
    require (not (is_draft t.status))
        (not_available "rsvp summary is not available for draft trips")
    trip_rsvp_summary_for_trip B t w
