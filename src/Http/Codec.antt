-- ===== src/Http/Codec.antt =====
-- encoding/json and crypto/sha256 as internal/adapters/httpapi/server.go uses them: documents as
-- text. They belong to the standard library and are parameters, with what the server relies on.
use eastbay_overland_rally_p.Prelude.{String, ◌≡◌, ◌≢◌}
use eastbay_overland_rally_p.Ports.{Result, ok}
use eastbay_overland_rally_p.Http.Oas.{
  UpdateMyMemberProfileRequest, CreateTripDraftRequest, UpdateTripRequest,
  SetDraftVisibilityRequest, AddOrganizerRequest, SetMyRsvpRequest, UpdateMyMemberProfileResponse,
  CreateTripDraftResponse, TripResponse, SetMyRsvpResponse,
}

-- the values whose JSON is hashed: a body, or an anonymous struct of the path and the body
pub data Document : Type 0 where
  profile_update : UpdateMyMemberProfileRequest → Document
  draft_creation : CreateTripDraftRequest → Document
  trip_update : String → UpdateTripRequest → Document
  visibility_change : String → SetDraftVisibilityRequest → Document
  organizer_addition : String → AddOrganizerRequest → Document
  organizer_removal : String → String → Document
  cancellation : String → Document
  answer : String → SetMyRsvpRequest → Document

-- json.Marshal and json.Unmarshal on the documents of one type
pub record Format (A : Type 0) : Type 0 where
  pub marshal : A → Result String
  pub unmarshal : String → Result A

-- Text that was written can be read again, and what is read is written as the same text. The value
-- need not be the same: a date loses its time of day.
pub record IsFaithful {A : Type 0} (f : Format A) : Type 0 where
  pub reread :
      (a : A) (text : String)
      → f.marshal a ≡ ok text
      → (a' : A) × (f.unmarshal text ≡ ok a') × (f.marshal a' ≡ ok text)

-- `digest` is the hexadecimal SHA-256 of a text
pub record Codec : Type 0 where
  pub digest : String → String
  pub document : Document → Result String
  pub profile : Format UpdateMyMemberProfileResponse
  pub created : Format CreateTripDraftResponse
  pub trip : Format TripResponse
  pub rsvp : Format SetMyRsvpResponse

pub record CodecLaws (c : Codec) : Type 0 where
  pub digest-nonempty : (text : String) → c.digest text ≢ ""
  pub profile : IsFaithful c.profile
  pub created : IsFaithful c.created
  pub trip : IsFaithful c.trip
  pub rsvp : IsFaithful c.rsvp
