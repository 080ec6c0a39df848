-- ===== src/Http/TripHandlers.antt =====
-- internal/adapters/httpapi/server.go, the handlers of the trips that have no Idempotency-Key, and
-- those of the answers that only read.
use eastbay_overland_rally_p.Prelude.{String, List, [], ◌∷◌, Option, map}
use eastbay_overland_rally_p.Ports.Idempotency.{IdempotencyStore}
use eastbay_overland_rally_p.Service.{Backend}
use eastbay_overland_rally_p.Trips.Queries
use eastbay_overland_rally_p.Trips.Publishing
use eastbay_overland_rally_p.Http.Oas.{
  TripSummary, TripDetails, PublishTripResponse, MyRsvp, TripRsvpSummary,
}
use eastbay_overland_rally_p.Http.Convert.{
  trip_summary_from_domain, trip_details_from_domain, my_rsvp_from_domain,
  trip_rsvp_summary_from_domain,
}
use eastbay_overland_rally_p.Http.Handler.{
  Context, Reply, replied, Server, Handler, pass, authenticate, caller_of, inquire, one_of, ◌>>=◌,
}
use eastbay_overland_rally_p.Http.Idempotent.{plainly}

module _ {B : Backend} {idem : Option IdempotencyStore} (s : Server B idem) (ctx : Context) where
  unfoldable pub list_visible_trips_for_member :
      Handler B idem (List TripSummary) (Reply (List TripSummary))
  list_visible_trips_for_member = do
    sub ← authenticate ctx
    me ← caller_of s ctx sub
    ts ← inquire ctx (one_of []) (Queries.list_visible_trips_for_member B me.id)
    pass (replied 200 (map trip_summary_from_domain ts))

  unfoldable pub list_my_draft_trips : Handler B idem (List TripSummary) (Reply (List TripSummary))
  list_my_draft_trips = do
    sub ← authenticate ctx
    me ← caller_of s ctx sub
    ts ← inquire ctx (one_of []) (Queries.list_my_draft_trips B me.id)
    pass (replied 200 (map trip_summary_from_domain ts))

  unfoldable pub get_trip_details : String → Handler B idem TripDetails (Reply TripDetails)
  get_trip_details trip = do
    sub ← authenticate ctx
    me ← caller_of s ctx sub
    td ← inquire ctx (one_of (404 ∷ [])) (Queries.get_trip_details B me.id trip)
    pass (replied 200 (trip_details_from_domain td))

  unfoldable pub get_my_rsvp_for_trip : String → Handler B idem MyRsvp (Reply MyRsvp)
  get_my_rsvp_for_trip trip = do
    sub ← authenticate ctx
    me ← caller_of s ctx sub
    my ← inquire ctx (one_of (404 ∷ 409 ∷ [])) (Queries.get_my_rsvp_for_trip B me.id trip)
    pass (replied 200 (my_rsvp_from_domain my))

  unfoldable pub get_trip_rsvp_summary :
      String → Handler B idem TripRsvpSummary (Reply TripRsvpSummary)
  get_trip_rsvp_summary trip = do
    sub ← authenticate ctx
    me ← caller_of s ctx sub
    sum ← inquire ctx (one_of (404 ∷ 409 ∷ [])) (Queries.get_trip_rsvp_summary B me.id trip)
    pass (replied 200 (trip_rsvp_summary_from_domain sum))

  unfoldable pub publish_trip :
      String → Handler B idem PublishTripResponse (Reply PublishTripResponse)
  publish_trip trip = do
    sub ← authenticate ctx
    me ← caller_of s ctx sub
    plainly idem ctx 200 (one_of (404 ∷ 409 ∷ 422 ∷ [])) (Publishing.publish_trip B me.id trip)
        (λ (td, copy). record { trip = trip_details_from_domain td; announcement_copy = copy })
