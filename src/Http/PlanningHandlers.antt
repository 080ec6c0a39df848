-- ===== src/Http/PlanningHandlers.antt =====
-- internal/adapters/httpapi/server.go, the handlers of the trips that take an Idempotency-Key.
use eastbay_overland_rally_p.Prelude.{
  ℕ, String, [], ◌∷◌, Option, none, some, ◌==◌, string_eq, if◌then◌else◌,
}
use eastbay_overland_rally_p.Domain.{TripDetails}
use eastbay_overland_rally_p.Ports.Idempotency.{IdempotencyStore}
use eastbay_overland_rally_p.Service.{Backend, Exec}
use eastbay_overland_rally_p.Trips.Drafts
use eastbay_overland_rally_p.Trips.Organizers
use eastbay_overland_rally_p.Trips.Publishing
use eastbay_overland_rally_p.Trips.Rsvps
use eastbay_overland_rally_p.Http.Oas.{
  CreateTripDraftRequest, CreateTripDraftResponse, UpdateTripRequest, SetDraftVisibilityRequest,
  AddOrganizerRequest, SetMyRsvpRequest, SetMyRsvpResponse, TripResponse,
}
use eastbay_overland_rally_p.Http.Convert.{
  trip_created_from_domain, trip_details_from_domain, my_rsvp_from_domain,
}
use eastbay_overland_rally_p.Http.Inputs.{update_trip_input_from_oas}
use eastbay_overland_rally_p.Http.Hashes.{
  hash_create_trip_draft_body, hash_update_trip_body, hash_set_trip_draft_visibility_body,
  hash_add_trip_organizer_body, hash_remove_trip_organizer_body, hash_cancel_trip_body,
  hash_set_my_rsvp_body,
}
use eastbay_overland_rally_p.Http.Handler.{
  Context, Reply, Server, Handler, must, authenticate, caller_of, body_of, one_of, create_status,
  ◌>>=◌, ◌>>◌,
}
use eastbay_overland_rally_p.Http.Idempotent.{once, plainly, begin, Exchange}
use eastbay_overland_rally_p.Http.Exchanges.{
  draft_creation_exchange, trip_update_exchange, visibility_exchange, cancellation_exchange,
  organizer_addition_exchange, organizer_removal_exchange, rsvp_exchange,
}

-- the statuses that the handlers of a trip answer with
abbrev pub trip_status : ℕ → Option ℕ
trip_status = one_of (404 ∷ 409 ∷ 422 ∷ [])

abbrev pub trip_response : TripDetails → TripResponse
trip_response td = record { trip = trip_details_from_domain td }

module _ {B : Backend} {idem : Option IdempotencyStore} (s : Server B idem) (ctx : Context) where
  unfoldable pub create_trip_draft :
      String
      → Option CreateTripDraftRequest
      → Handler B idem CreateTripDraftResponse (Reply CreateTripDraftResponse)
  create_trip_draft key body = do
    sub ← authenticate ctx
    me ← caller_of s ctx sub
    b ← body_of ctx body
    hash ← must (hash_create_trip_draft_body s.codec b)
    once idem s ctx (draft_creation_exchange s.codec key sub hash) create_status
        (Drafts.create_trip_draft B me.id (record { name = b.name }))
        (λ t. record { trip = trip_created_from_domain t })

  unfoldable pub update_trip :
      String → String → Option UpdateTripRequest → Handler B idem TripResponse (Reply TripResponse)
  update_trip key trip body = do
    sub ← authenticate ctx
    me ← caller_of s ctx sub
    b ← body_of ctx body
    hash ← must (hash_update_trip_body s.codec trip b)
    once idem s ctx (trip_update_exchange s.codec key sub hash) trip_status
        (Drafts.update_trip B me.id trip (update_trip_input_from_oas b)) trip_response

  unfoldable pub set_trip_draft_visibility :
      String
      → String
      → Option SetDraftVisibilityRequest
      → Handler B idem TripResponse (Reply TripResponse)
  set_trip_draft_visibility key trip body = do
    sub ← authenticate ctx
    me ← caller_of s ctx sub
    b ← body_of ctx body
    hash ← must (hash_set_trip_draft_visibility_body s.codec trip b)
    once idem s ctx (visibility_exchange s.codec key sub hash) trip_status
        (Drafts.set_trip_draft_visibility B me.id trip b.draft_visibility) trip_response

  unfoldable pub add_trip_organizer :
      String
      → String
      → Option AddOrganizerRequest
      → Handler B idem TripResponse (Reply TripResponse)
  add_trip_organizer key trip body = do
    sub ← authenticate ctx
    me ← caller_of s ctx sub
    b ← body_of ctx body
    hash ← must (hash_add_trip_organizer_body s.codec trip b)
    once idem s ctx (organizer_addition_exchange s.codec key sub hash) trip_status
        (Organizers.add_trip_organizer B me.id trip b.member_id) trip_response

  unfoldable pub remove_trip_organizer :
      String → String → String → Handler B idem TripResponse (Reply TripResponse)
  remove_trip_organizer key trip member = do
    sub ← authenticate ctx
    me ← caller_of s ctx sub
    hash ← must (hash_remove_trip_organizer_body s.codec trip member)
    once idem s ctx (organizer_removal_exchange s.codec key sub hash) trip_status
        (Organizers.remove_trip_organizer B me.id trip member) trip_response

  unfoldable pub set_my_rsvp :
      String
      → String
      → Option SetMyRsvpRequest
      → Handler B idem SetMyRsvpResponse (Reply SetMyRsvpResponse)
  set_my_rsvp key trip body = do
    sub ← authenticate ctx
    me ← caller_of s ctx sub
    b ← body_of ctx body
    hash ← must (hash_set_my_rsvp_body s.codec trip b)
    once idem s ctx (rsvp_exchange s.codec key sub hash) trip_status
        (Rsvps.set_my_rsvp B me.id trip b.response)
        (λ my. record { my_rsvp = my_rsvp_from_domain my })

  -- the rest of CancelTrip with a key: an empty key is claimed, and its reply is not kept
  unfoldable pub cancel_with_key :
      String
      → Exchange TripResponse
      → Exec B TripDetails
      → Handler B idem TripResponse (Reply TripResponse)
  cancel_with_key key x call =
      if key == ""
      then (do begin idem s ctx x; plainly idem ctx 200 trip_status call trip_response)
      else once idem s ctx x trip_status call trip_response

  -- the key is optional here
  unfoldable pub cancel_trip :
      Option String → String → Handler B idem TripResponse (Reply TripResponse)
  cancel_trip none trip = do
    sub ← authenticate ctx
    me ← caller_of s ctx sub
    plainly idem ctx 200 trip_status (Publishing.cancel_trip B me.id trip) trip_response
  cancel_trip (some key) trip = do
    sub ← authenticate ctx
    me ← caller_of s ctx sub
    hash ← must (hash_cancel_trip_body s.codec trip)
    cancel_with_key key (cancellation_exchange s.codec key sub hash)
        (Publishing.cancel_trip B me.id trip)
