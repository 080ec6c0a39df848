-- ===== src/Http/Operations.antt =====
-- The eight operations of server.go that take an Idempotency-Key, as one family: the values of the
-- request beside the key, the document of the reply, the hashed document and the handler.
use eastbay_overland_rally_p.Prelude.{String, Option, none, some}
use mathlib.Core.Option as Opt
use eastbay_overland_rally_p.Ports.Idempotency.{IdempotencyStore}
use eastbay_overland_rally_p.Service.{Backend}
use eastbay_overland_rally_p.Http.Oas.{
  UpdateMyMemberProfileRequest, CreateTripDraftRequest, UpdateTripRequest,
  SetDraftVisibilityRequest, AddOrganizerRequest, SetMyRsvpRequest, UpdateMyMemberProfileResponse,
  CreateTripDraftResponse, TripResponse, SetMyRsvpResponse,
}
use eastbay_overland_rally_p.Http.Codec.{
  Codec, Format, Document, profile_update, draft_creation, trip_update, visibility_change,
  organizer_addition, organizer_removal, cancellation, answer,
}
use eastbay_overland_rally_p.Ports.{Result, ok, err}
use eastbay_overland_rally_p.Http.Hashes.{
  digest_of, canonical_profile, canonical_draft, canonical_trip,
}
use eastbay_overland_rally_p.Http.Handler.{Context, Server, Handler, Reply}
use eastbay_overland_rally_p.Http.MemberHandlers
use eastbay_overland_rally_p.Http.PlanningHandlers

pub data Operation : Type 0 where
  updates_profile creates_draft updates_trip sets_visibility cancels adds_organizer : Operation
  removes_organizer sets_rsvp : Operation

-- the trip of the path first
abbrev pub Request : Operation → Type 0
Request updates_profile = Option UpdateMyMemberProfileRequest
Request creates_draft = Option CreateTripDraftRequest
Request updates_trip = String × Option UpdateTripRequest
Request sets_visibility = String × Option SetDraftVisibilityRequest
Request cancels = String
Request adds_organizer = String × Option AddOrganizerRequest
Request removes_organizer = String × String
Request sets_rsvp = String × Option SetMyRsvpRequest

abbrev pub Response : Operation → Type 0
Response updates_profile = UpdateMyMemberProfileResponse
Response creates_draft = CreateTripDraftResponse
Response sets_rsvp = SetMyRsvpResponse
Response _ = TripResponse

abbrev pub format_of : (c : Codec) (o : Operation) → Format (Response o)
format_of c updates_profile = c.profile
format_of c creates_draft = c.created
format_of c sets_rsvp = c.rsvp
format_of c updates_trip = c.trip
format_of c sets_visibility = c.trip
format_of c cancels = c.trip
format_of c adds_organizer = c.trip
format_of c removes_organizer = c.trip

-- the document whose hash tells one request from another, none without a body
abbrev pub document_of : (o : Operation) → Request o → Option Document
document_of updates_profile body = Opt.map (λ b. profile_update (canonical_profile b)) body
document_of creates_draft body = Opt.map (λ b. draft_creation (canonical_draft b)) body
document_of updates_trip (trip, body) = Opt.map (λ b. trip_update trip (canonical_trip b)) body
document_of sets_visibility (trip, body) = Opt.map (visibility_change trip) body
document_of cancels trip = some (cancellation trip)
document_of adds_organizer (trip, body) = Opt.map (organizer_addition trip) body
document_of removes_organizer (trip, member) = some (organizer_removal trip member)
document_of sets_rsvp (trip, body) = Opt.map (answer trip) body

module _ {B : Backend} {idem : Option IdempotencyStore} (s : Server B idem) (ctx : Context)
    (key : String) where
  unfoldable pub handle :
      (o : Operation) → Request o → Handler B idem (Response o) (Reply (Response o))
  handle updates_profile body = MemberHandlers.update_my_member_profile s ctx key body
  handle creates_draft body = PlanningHandlers.create_trip_draft s ctx key body
  handle updates_trip (trip, body) = PlanningHandlers.update_trip s ctx key trip body
  handle sets_visibility (trip, body) =
      PlanningHandlers.set_trip_draft_visibility s ctx key trip body
  handle cancels trip = PlanningHandlers.cancel_trip s ctx (some key) trip
  handle adds_organizer (trip, body) = PlanningHandlers.add_trip_organizer s ctx key trip body
  handle removes_organizer (trip, member) =
      PlanningHandlers.remove_trip_organizer s ctx key trip member
  handle sets_rsvp (trip, body) = PlanningHandlers.set_my_rsvp s ctx key trip body

abbrev success : Result String → Option String
success (ok hash) = some hash
success (err e) = none

abbrev pub hash_or_none : Codec → Option Document → Option String
hash_or_none c none = none
hash_or_none c (some d) = success (digest_of c d)

-- the hash of a request, none without a body or when the body cannot be written
abbrev pub hash_of : (c : Codec) (o : Operation) → Request o → Option String
hash_of c o q = hash_or_none c (document_of o q)
