-- ===== src/Http/Requests.antt =====
-- The requests of the API, and what server.go answers to each.
use eastbay_overland_rally_p.Prelude.{String, Bool, true, false, Option}
use eastbay_overland_rally_p.Ports.{Result, ok, err}
use eastbay_overland_rally_p.Ports.Idempotency.{IdempotencyStore}
use eastbay_overland_rally_p.Service.{Backend}
use eastbay_overland_rally_p.Http.Oas.{CreateMemberRequest}
use eastbay_overland_rally_p.Http.Handler.{Context, Reply, replied, refused, Server, Site, serve}
use eastbay_overland_rally_p.Http.MemberHandlers
use eastbay_overland_rally_p.Http.TripHandlers
use eastbay_overland_rally_p.Http.PlanningHandlers
use eastbay_overland_rally_p.Http.Operations.{Operation, updates_profile, Request, handle}

-- the requests of the API; those with a key are the operations
pub data ApiRequest : Type 0 where
  keyed : String → (o : Operation) → Request o → ApiRequest
  creates_my_member : Option CreateMemberRequest → ApiRequest
  cancels_without_key publishes : String → ApiRequest
  lists_members : Option Bool → ApiRequest
  searches_members : String → ApiRequest
  gets_my_profile lists_visible_trips lists_my_drafts : ApiRequest
  gets_details gets_my_rsvp gets_rsvp_summary : String → ApiRequest

abbrev without_document : {R : Type 0} → Reply R → Reply Unit
without_document (replied status r) = replied status tt
without_document (refused status e) = refused status e

abbrev without_documents : {R : Type 0} → Result (Reply R) → Result (Reply Unit)
without_documents (ok r) = ok (without_document r)
without_documents (err e) = err e

abbrev pub outline : {R A : Type 0} → Result (Reply R) × A → Result (Reply Unit) × A
outline (r, site) = (without_documents r, site)

-- the requests that need a member, not only a subject
abbrev pub needs_member : ApiRequest → Bool
needs_member (keyed key updates_profile q) = false
needs_member (creates_my_member body) = false
needs_member gets_my_profile = false
needs_member _ = true

module _ {B : Backend} {idem : Option IdempotencyStore} (s : Server B idem) (ctx : Context) where
  -- what a request is answered, without the document of a success, and the site after it
  unfoldable pub serve_request : ApiRequest → Site B idem → Result (Reply Unit) × Site B idem
  serve_request (keyed key o q) site = outline (serve (handle s ctx key o q) site)
  serve_request (creates_my_member body) site =
      outline (serve (MemberHandlers.create_my_member s ctx body) site)
  serve_request (cancels_without_key trip) site =
      outline (serve (PlanningHandlers.cancel_trip s ctx Option.none trip) site)
  serve_request (publishes trip) site = outline (serve (TripHandlers.publish_trip s ctx trip) site)
  serve_request (lists_members flag) site =
      outline (serve (MemberHandlers.list_members s ctx flag) site)
  serve_request (searches_members q) site =
      outline (serve (MemberHandlers.search_members s ctx q) site)
  serve_request gets_my_profile site =
      outline (serve (MemberHandlers.get_my_member_profile s ctx) site)
  serve_request lists_visible_trips site =
      outline (serve (TripHandlers.list_visible_trips_for_member s ctx) site)
  serve_request lists_my_drafts site = outline (serve (TripHandlers.list_my_draft_trips s ctx) site)
  serve_request (gets_details trip) site =
      outline (serve (TripHandlers.get_trip_details s ctx trip) site)
  serve_request (gets_my_rsvp trip) site =
      outline (serve (TripHandlers.get_my_rsvp_for_trip s ctx trip) site)
  serve_request (gets_rsvp_summary trip) site =
      outline (serve (TripHandlers.get_trip_rsvp_summary s ctx trip) site)
