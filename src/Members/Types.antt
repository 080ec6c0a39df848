-- ===== src/Members/Types.antt =====
-- internal/app/members/types.go, and what the service of members asks of the code around it.
use eastbay_overland_rally_p.Prelude.{ℕ, ℤ, String, Option}
use eastbay_overland_rally_p.Domain.{Time}
use eastbay_overland_rally_p.Ports.{Failure}
use eastbay_overland_rally_p.Trips.Types.{Optional, plain_error}

pub record VehicleProfilePatch : Type 0 where
  pub make : Optional String
  pub model : Optional String
  pub tire_size : Optional String
  pub lift_lockers : Optional String
  pub fuel_range : Optional String
  pub recovery_gear : Optional String
  pub ham_radio_call_sign : Optional String
  pub notes : Optional String

pub record UpdateMyMemberProfileInput : Type 0 where
  pub display_name : Optional String
  pub email : Optional String
  pub group_alias_email : Optional String
  pub vehicle_profile : Optional VehicleProfilePatch

pub record CreateMyMemberInput : Type 0 where
  pub display_name : String
  pub email : String
  pub group_alias_email : Option String
  pub vehicle_profile : Option VehicleProfilePatch

-- mail.ParseAddress: the address of the text, or the text of the error
pub data Parsed : Type 0 where
  address : String → Parsed
  malformed : String → Parsed

-- The fields of Service beside the repository and the generator of identifiers, and net/mail:
-- `clock n` is the n-th reading of the clock.
pub record Settings : Type 0 where
  pub parse_address : String → Parsed
  pub clock : ℕ → Time
  pub search_limit : ℤ

abbrev pub not_provisioned : Failure
not_provisioned =
    plain_error 404 "MEMBER_NOT_PROVISIONED"
      "No member profile exists for the authenticated subject."

abbrev pub already_exists : Failure
already_exists =
    plain_error 409 "MEMBER_ALREADY_EXISTS"
      "A member profile already exists for the authenticated subject."

abbrev pub email_in_use : Failure
email_in_use = plain_error 409 "EMAIL_ALREADY_IN_USE" "email address is already in use"
