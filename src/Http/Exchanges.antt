-- ===== src/Http/Exchanges.antt =====
-- internal/adapters/httpapi/server.go, the fingerprints that the handlers with an Idempotency-Key
-- build: the method, the route and the status of success of each, as idempotency.Fingerprint.
use eastbay_overland_rally_p.Prelude.{ℕ, String}
use eastbay_overland_rally_p.Domain.{SubjectId}
use eastbay_overland_rally_p.Ports.Idempotency.{Fingerprint}
use eastbay_overland_rally_p.Http.Oas.{
  UpdateMyMemberProfileResponse, CreateTripDraftResponse, TripResponse, SetMyRsvpResponse,
}
use eastbay_overland_rally_p.Http.Codec.{Codec, Format}
use eastbay_overland_rally_p.Http.Idempotent.{Exchange}

-- metaFP: the hash of the body is left empty
abbrev pub meta_fingerprint : String → SubjectId → String → String → Fingerprint
meta_fingerprint key sub method route = record {
  key = key;
  subject = sub;
  method = method;
  route = route;
  body_hash = "";
}

abbrev pub exchange :
    {R : Type 0} → String → String → ℕ → Format R → String → SubjectId → String → Exchange R
exchange method route success format key sub hash = record {
  meta = meta_fingerprint key sub method route;
  body_hash = hash;
  success = success;
  format = format;
}

module _ (c : Codec) where
  abbrev pub profile_update_exchange :
      String → SubjectId → String → Exchange UpdateMyMemberProfileResponse
  profile_update_exchange = exchange "PATCH" "/members/me" 200 c.profile

  abbrev pub draft_creation_exchange :
      String → SubjectId → String → Exchange CreateTripDraftResponse
  draft_creation_exchange = exchange "POST" "/trips" 201 c.created

  abbrev pub trip_update_exchange : String → SubjectId → String → Exchange TripResponse
  trip_update_exchange = exchange "PATCH" "/trips/{tripId}" 200 c.trip

  abbrev pub visibility_exchange : String → SubjectId → String → Exchange TripResponse
  visibility_exchange = exchange "PUT" "/trips/{tripId}/draft-visibility" 200 c.trip

  abbrev pub cancellation_exchange : String → SubjectId → String → Exchange TripResponse
  cancellation_exchange = exchange "POST" "/trips/{tripId}/cancel" 200 c.trip

  abbrev pub organizer_addition_exchange : String → SubjectId → String → Exchange TripResponse
  organizer_addition_exchange = exchange "POST" "/trips/{tripId}/organizers" 200 c.trip

  abbrev pub organizer_removal_exchange : String → SubjectId → String → Exchange TripResponse
  organizer_removal_exchange = exchange "DELETE" "/trips/{tripId}/organizers/{memberId}" 200 c.trip

  abbrev pub rsvp_exchange : String → SubjectId → String → Exchange SetMyRsvpResponse
  rsvp_exchange = exchange "PUT" "/trips/{tripId}/rsvp" 200 c.rsvp
