-- ===== src/Http/Secrecy.antt =====
-- Drafts that the caller may not see, as server.go answers for them beside trips that do not exist.
use eastbay_overland_rally_p.Prelude.{String, List, [], ◌∷◌, Option, some, ◌≡◌, refl}
use eastbay_overland_rally_p.Domain.{SubjectId, Member}
use eastbay_overland_rally_p.Ports.{ok}
use eastbay_overland_rally_p.Ports.Idempotency.{IdempotencyStore}
use eastbay_overland_rally_p.Service.{Backend}
use eastbay_overland_rally_p.Members.Directory.{get_my_member_profile}
use eastbay_overland_rally_p.Trips.Secrecy.{IsSecret, secret_not_found}
use eastbay_overland_rally_p.Http.Handler.{
  Context, Reply, refused, Server, Site, serve, authenticate, caller_of, inquire, perform,
  subject_from_context, oas_error,
}
use eastbay_overland_rally_p.Http.Idempotent.{plainly}
use eastbay_overland_rally_p.Http.TripHandlers.{
  get_trip_details, get_my_rsvp_for_trip, get_trip_rsvp_summary, publish_trip,
}
use eastbay_overland_rally_p.Http.PlanningHandlers.{cancel_trip}
use eastbay_overland_rally_p.Http.Requests.{
  ApiRequest, cancels_without_key, publishes, gets_details, gets_my_rsvp, gets_rsvp_summary,
  serve_request,
}

abbrev pub no_trip : {R : Type 0} → Context → Reply R
no_trip ctx = refused 404 (oas_error ctx "TRIP_NOT_FOUND" "trip not found" [])

-- the requests that name a trip and carry no key
abbrev pub about_trip : String → List ApiRequest
about_trip trip =
    gets_details trip
    ∷ gets_my_rsvp trip
    ∷ gets_rsvp_summary trip
    ∷ publishes trip
    ∷ cancels_without_key trip
    ∷ []

module _ {B : Backend} {idem : Option IdempotencyStore} (s : Server B idem) (ctx : Context)
    (site : Site B idem) where
  abbrev pub AllAnswered : Reply Unit → List ApiRequest → Type 0
  AllAnswered r [] = Unit
  AllAnswered r (q ∷ qs) = (serve_request s ctx q site ≡ (ok r, site)) × AllAnswered r qs

  -- For a draft that the member whom the subject is bound to may not see, as for a trip that is not
  -- stored, the requests that ask for the trip, its RSVPs or the own RSVP, publish it, or cancel it
  -- without a key are answered with one and the same 404 TRIP_NOT_FOUND, and nothing changes.
  pub secret_trip_hidden :
      (sub : SubjectId) (me : Member) (trip : String)
      → subject_from_context ctx ≡ some sub
      → get_my_member_profile B s.members sub site.world ≡ ok me
      → IsSecret B me.id trip site.world
      → AllAnswered (no_trip ctx) (about_trip trip)
  unfolding serve_request serve authenticate caller_of inquire plainly perform get_trip_details
      get_my_rsvp_for_trip get_trip_rsvp_summary publish_trip cancel_trip
  secret_trip_hidden sub me trip bound known secret =
      let n = secret_not_found B me.id trip site.world secret in
      (
        rw (bound, known, n.details) refl,
        (
          rw (bound, known, n.my_rsvp) refl,
          (
            rw (bound, known, n.rsvp_summary) refl,
            (rw (bound, known, n.publish) refl, (rw (bound, known, n.cancel) refl, tt)),
          ),
        ),
      )
