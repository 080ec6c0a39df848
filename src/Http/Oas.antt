-- ===== src/Http/Oas.antt =====
-- internal/adapters/httpapi/oas/api.gen.go: the documents that the API reads and writes. The named
-- string types of the package are those of internal/domain with the same constants, so that a
-- conversion between them is no step; a member id, a trip id and an e-mail address are texts.
use eastbay_overland_rally_p.Prelude.{ℤ, String, Bool, List, Option}
use eastbay_overland_rally_p.Domain.{
  Time, Float64, TripStatus, DraftVisibility, ArtifactType, RsvpResponse,
}
use eastbay_overland_rally_p.Ports.{Detail}

-- nullable.Nullable: the three states that the package documents. The zero value is `absent`, and
-- Set and NewNullableWithValue make `given`.
pub data Nullable (A : Type 0) : Type 0 where
  absent explicit_null : Nullable A
  given : A → Nullable A

-- openapi_types.Date, a time of which only the day is written
pub record Date : Type 0 where
  pub time : Time

pub record ErrorResponse : Type 0 where
  pub code : String
  pub details : Nullable (List (String × Detail))
  pub message : String
  pub request_id : Nullable String

pub record VehicleProfile : Type 0 where
  pub fuel_range : Nullable String
  pub ham_radio_call_sign : Nullable String
  pub lift_lockers : Nullable String
  pub make : Nullable String
  pub model : Nullable String
  pub notes : Nullable String
  pub recovery_gear : Nullable String
  pub tire_size : Nullable String

-- the anonymous struct of Location.LatitudeLongitude
pub record Coordinates : Type 0 where
  pub latitude : Option Float64
  pub longitude : Option Float64

pub record Location : Type 0 where
  pub address : Nullable String
  pub label : String
  pub latitude_longitude : Nullable Coordinates

-- the anonymous struct of LocationPatch.LatitudeLongitude
pub record CoordinatesPatch : Type 0 where
  pub latitude : Nullable Float64
  pub longitude : Nullable Float64

pub record LocationPatch : Type 0 where
  pub address : Nullable String
  pub label : Nullable String
  pub latitude_longitude : Nullable CoordinatesPatch

pub record MemberDirectoryEntry : Type 0 where
  pub display_name : String
  pub member_id : String

pub record MemberProfile : Type 0 where
  pub display_name : String
  pub email : String
  pub group_alias_email : Nullable String
  pub member_id : String
  pub vehicle_profile : Option VehicleProfile

pub record MemberSummary : Type 0 where
  pub display_name : String
  pub email : String
  pub group_alias_email : Nullable String
  pub member_id : String

pub record MyRsvp : Type 0 where
  pub member_id : String
  pub response : RsvpResponse
  pub trip_id : String
  pub updated_at : Time

pub record TripArtifact : Type 0 where
  pub artifact_id : String
  pub title : String
  pub artifact_type : ArtifactType
  pub url : String

pub record TripCreated : Type 0 where
  pub draft_visibility : DraftVisibility
  pub status : TripStatus
  pub trip_id : String

pub record TripRsvpSummary : Type 0 where
  pub attending_members : List MemberSummary
  pub attending_rigs : ℤ
  pub capacity_rigs : Nullable ℤ
  pub not_attending_members : List MemberSummary

pub record TripDetails : Type 0 where
  pub artifacts : List TripArtifact
  pub capacity_rigs : Nullable ℤ
  pub comms_requirements_text : Nullable String
  pub description : Nullable String
  pub difficulty_text : Nullable String
  pub draft_visibility : Option DraftVisibility
  pub end_date : Nullable Date
  pub meeting_location : Option Location
  pub my_rsvp : Option MyRsvp
  pub name : Nullable String
  pub organizers : List MemberSummary
  pub recommended_requirements_text : Nullable String
  pub rsvp_actions_enabled : Bool
  pub rsvp_summary : Option TripRsvpSummary
  pub start_date : Nullable Date
  pub status : TripStatus
  pub trip_id : String

pub record TripSummary : Type 0 where
  pub attending_rigs : Nullable ℤ
  pub capacity_rigs : Nullable ℤ
  pub draft_visibility : Option DraftVisibility
  pub end_date : Nullable Date
  pub name : Nullable String
  pub start_date : Nullable Date
  pub status : TripStatus
  pub trip_id : String

-- the bodies of requests
pub record AddOrganizerRequest : Type 0 where
  pub member_id : String

pub record CreateMemberRequest : Type 0 where
  pub display_name : String
  pub email : String
  pub group_alias_email : Nullable String
  pub vehicle_profile : Option VehicleProfile

pub record CreateTripDraftRequest : Type 0 where
  pub name : String

pub record SetDraftVisibilityRequest : Type 0 where
  pub draft_visibility : DraftVisibility

pub record SetMyRsvpRequest : Type 0 where
  pub response : RsvpResponse

pub record UpdateMyMemberProfileRequest : Type 0 where
  pub display_name : Nullable String
  pub email : Option String
  pub group_alias_email : Nullable String
  pub vehicle_profile : Option VehicleProfile

pub record UpdateTripRequest : Type 0 where
  pub artifact_ids : Nullable (List String)
  pub capacity_rigs : Nullable ℤ
  pub comms_requirements_text : Nullable String
  pub description : Nullable String
  pub difficulty_text : Nullable String
  pub end_date : Nullable Date
  pub meeting_location : Option LocationPatch
  pub name : Option String
  pub recommended_requirements_text : Nullable String
  pub start_date : Nullable Date

-- the bodies of replies
pub record CreateMemberResponse : Type 0 where
  pub member : MemberProfile

pub record UpdateMyMemberProfileResponse : Type 0 where
  pub member : MemberProfile

pub record CreateTripDraftResponse : Type 0 where
  pub trip : TripCreated

pub record TripResponse : Type 0 where
  pub trip : TripDetails

pub record PublishTripResponse : Type 0 where
  pub announcement_copy : String
  pub trip : TripDetails

pub record SetMyRsvpResponse : Type 0 where
  pub my_rsvp : MyRsvp
