-- ===== src/Domain.antt =====
-- internal/domain and the stored records of internal/ports/out: identifiers, trips, members, RSVPs.
-- A nullable pointer to a value is an `Option` of it. A named string type with constants is a data
-- type with one constructor for each constant and `other` for every other text; the string types of
-- domain and of a port that share their constants are one type, so that a conversion is no step.
use eastbay_overland_rally_p.Prelude.{
  ℕ, ℤ, String, Bool, true, false, List, Option, ◌==◌, nat_eq, string_eq, ltb,
}

-- ids.go
abbrev pub SubjectId : Type 0
SubjectId = String

abbrev pub MemberId : Type 0
MemberId = String

abbrev pub TripId : Type 0
TripId = String

-- time.Time: the instant in nanoseconds from the first day of year 0, before which the program's
-- formats write no date, and the name of its location.
pub record Time : Type 0 where
  pub instant : ℕ
  pub location : String

abbrev pub utc : Time → Time
utc t = record t { location = "UTC" }

abbrev pub before : Time → Time → Bool
before a b = ltb a.instant b.instant

abbrev pub same_instant : Time → Time → Bool
same_instant a b = a.instant == b.instant

-- The bits of a float64. The program copies coordinates and never computes with them.
abbrev pub Float64 : Type 0
Float64 = ℕ

pub data TripStatus : Type 0 where
  draft published canceled : TripStatus
  other_status : String → TripStatus

pub data DraftVisibility : Type 0 where
  private_draft public_draft : DraftVisibility
  other_visibility : String → DraftVisibility

pub data ArtifactType : Type 0 where
  gpx schedule document other : ArtifactType
  other_type : String → ArtifactType

pub data RsvpResponse : Type 0 where
  rsvp_yes rsvp_no rsvp_unset : RsvpResponse
  rsvp_other : String → RsvpResponse

pub record Location : Type 0 where
  pub label : String
  pub address : Option String
  pub latitude : Option Float64
  pub longitude : Option Float64

pub record TripArtifact : Type 0 where
  pub artifact_id : String
  pub artifact_type : ArtifactType
  pub title : String
  pub url : String

pub record TripSummary : Type 0 where
  pub id : TripId
  pub name : Option String
  pub start_date : Option Time
  pub end_date : Option Time
  pub status : TripStatus
  pub draft_visibility : Option DraftVisibility
  pub capacity_rigs : Option ℤ
  pub attending_rigs : Option ℤ

pub record MemberSummary : Type 0 where
  pub id : MemberId
  pub display_name : String
  pub email : String
  pub group_alias_email : Option String

pub record TripRsvpSummary : Type 0 where
  pub capacity_rigs : Option ℤ
  pub attending_rigs : ℤ
  pub attending_members : List MemberSummary
  pub not_attending_members : List MemberSummary

pub record MyRsvp : Type 0 where
  pub trip_id : TripId
  pub member_id : MemberId
  pub response : RsvpResponse
  pub updated_at : Time

pub record TripDetails : Type 0 where
  pub summary : TripSummary
  pub open summary use *
  pub description : Option String
  pub difficulty_text : Option String
  pub meeting_location : Option Location
  pub comms_requirements_text : Option String
  pub recommended_requirements_text : Option String
  pub organizers : List MemberSummary
  pub artifacts : List TripArtifact
  pub rsvp_summary : Option TripRsvpSummary
  pub my_rsvp : Option MyRsvp
  pub rsvp_actions_enabled : Bool

-- member.go
pub record VehicleProfile : Type 0 where
  pub make : Option String
  pub model : Option String
  pub tire_size : Option String
  pub lift_lockers : Option String
  pub fuel_range : Option String
  pub recovery_gear : Option String
  pub ham_radio_call_sign : Option String
  pub notes : Option String

-- domain.Member, and memberrepo.Member with the same fields
pub record Member : Type 0 where
  pub id : MemberId
  pub subject : SubjectId
  pub display_name : String
  pub email : String
  pub group_alias_email : Option String
  pub vehicle_profile : Option VehicleProfile
  pub is_active : Bool
  pub created_at : Time
  pub updated_at : Time

-- triprepo.Trip
pub record Trip : Type 0 where
  pub id : TripId
  pub status : TripStatus
  pub name : Option String
  pub description : Option String
  pub creator_member_id : MemberId
  pub organizer_member_ids : List MemberId
  pub draft_visibility : DraftVisibility
  pub start_date : Option Time
  pub end_date : Option Time
  pub capacity_rigs : Option ℤ
  pub attending_rigs : Option ℤ
  pub difficulty_text : Option String
  pub meeting_location : Option Location
  pub comms_requirements_text : Option String
  pub recommended_requirements_text : Option String
  pub artifacts : List TripArtifact
  pub created_at : Time
  pub updated_at : Time

-- rsvprepo.RSVP
pub record Rsvp : Type 0 where
  pub trip_id : TripId
  pub member_id : MemberId
  pub status : RsvpResponse
  pub updated_at : Time

-- `==` on the string types
abbrev pub is_yes : RsvpResponse → Bool
is_yes rsvp_yes = true
is_yes _ = false

abbrev pub same_response : RsvpResponse → RsvpResponse → Bool
same_response rsvp_yes rsvp_yes = true
same_response rsvp_no rsvp_no = true
same_response rsvp_unset rsvp_unset = true
same_response (rsvp_other s) (rsvp_other t) = s == t
same_response _ _ = false

abbrev pub is_draft : TripStatus → Bool
is_draft draft = true
is_draft _ = false

abbrev pub is_published : TripStatus → Bool
is_published published = true
is_published _ = false

abbrev pub is_canceled : TripStatus → Bool
is_canceled canceled = true
is_canceled _ = false

abbrev pub is_public : DraftVisibility → Bool
is_public public_draft = true
is_public _ = false

abbrev pub is_private : DraftVisibility → Bool
is_private private_draft = true
is_private _ = false
