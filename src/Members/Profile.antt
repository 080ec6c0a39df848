-- ===== src/Members/Profile.antt =====
-- The parts of service.go that work on one profile: applyVehicleProfilePatch, createVehicleProfile,
-- validateEmail, and the fields of UpdateMyMemberProfile one by one.
use eastbay_overland_rally_p.Prelude.{
  String, Option, none, some, not, ◌==◌, string_eq, if◌then◌else◌,
}
use eastbay_overland_rally_p.Text.{normalize_human_name, trim_space}
use eastbay_overland_rally_p.Domain.{Member, VehicleProfile}
use eastbay_overland_rally_p.Ports.{Result, ok, err, require, ◌>>=◌, ◌>>◌}
use eastbay_overland_rally_p.Trips.Types.{Optional, unspecified, null, value, validation_error}
use eastbay_overland_rally_p.Members.Types.{
  VehicleProfilePatch, Parsed, address, malformed, Settings,
}

abbrev pub no_vehicle : VehicleProfile
no_vehicle = record {
  make = none;
  model = none;
  tire_size = none;
  lift_lockers = none;
  fuel_range = none;
  recovery_gear = none;
  ham_radio_call_sign = none;
  notes = none;
}

abbrev pub apply_field : Optional String → Option String → Option String
apply_field unspecified dst = dst
apply_field null dst = none
apply_field (value v) dst = some v

abbrev vehicle_or_blank : Option VehicleProfile → VehicleProfile
vehicle_or_blank none = no_vehicle
vehicle_or_blank (some v) = v

unfoldable pub apply_vehicle_profile_patch :
    Option VehicleProfile → VehicleProfilePatch → VehicleProfile
apply_vehicle_profile_patch existing p =
    let cur = vehicle_or_blank existing in
    record {
      make = apply_field p.make cur.make;
      model = apply_field p.model cur.model;
      tire_size = apply_field p.tire_size cur.tire_size;
      lift_lockers = apply_field p.lift_lockers cur.lift_lockers;
      fuel_range = apply_field p.fuel_range cur.fuel_range;
      recovery_gear = apply_field p.recovery_gear cur.recovery_gear;
      ham_radio_call_sign = apply_field p.ham_radio_call_sign cur.ham_radio_call_sign;
      notes = apply_field p.notes cur.notes;
    }

abbrev pub set_if_specified : Optional String → Option String
set_if_specified unspecified = none
set_if_specified null = none
set_if_specified (value v) = some v

unfoldable pub create_vehicle_profile : Option VehicleProfilePatch → Option VehicleProfile
create_vehicle_profile none = none
create_vehicle_profile (some vp) = some (record {
  make = set_if_specified vp.make;
  model = set_if_specified vp.model;
  tire_size = set_if_specified vp.tire_size;
  lift_lockers = set_if_specified vp.lift_lockers;
  fuel_range = set_if_specified vp.fuel_range;
  recovery_gear = set_if_specified vp.recovery_gear;
  ham_radio_call_sign = set_if_specified vp.ham_radio_call_sign;
  notes = set_if_specified vp.notes;
})

-- `addr.Address != email`: no "Name <email@x>" passes
abbrev bare_address : Parsed → String → Option String
bare_address (malformed problem) email = some problem
bare_address (address a) email = if a == email then none else some "must be a bare email address"

-- validateEmail: the text of the error, or none
unfoldable pub validate_email : Settings → String → Option String
validate_email s email =
    if email == "" then some "must be non-empty" else bare_address (s.parse_address email) email

-- the errors of a display name and of an address
abbrev pub valid_name : String → Result String
valid_name text = do
  let name = normalize_human_name text
  require (not (name == ""))
      (validation_error "invalid displayName" "displayName" "must be non-empty")
  ok name

abbrev pub no_problem : Option String → String → String → String → Result String
no_problem none message field email = ok email
no_problem (some problem) message field email = err (validation_error message field problem)

abbrev pub valid_address : Settings → String → String → String → Result String
valid_address s message field text =
    let email = trim_space text in no_problem (validate_email s email) message field email

unfoldable pub update_name : Optional String → Member → Result Member
update_name unspecified m = ok m
update_name null m = err (validation_error "invalid displayName" "displayName" "cannot be null")
update_name (value v) m = do name ← valid_name v; ok (record m { display_name = name })

unfoldable pub update_group_alias : Settings → Optional String → Member → Result Member
update_group_alias s unspecified m = ok m
update_group_alias s null m = ok (record m { group_alias_email = none })
update_group_alias s (value v) m = do
  gae ← valid_address s "invalid groupAliasEmail" "groupAliasEmail" v
  ok (record m { group_alias_email = some gae })

unfoldable pub update_vehicle : Optional VehicleProfilePatch → Member → Member
update_vehicle unspecified m = m
update_vehicle null m = record m { vehicle_profile = none }
update_vehicle (value p) m = record m {
  vehicle_profile = some (apply_vehicle_profile_patch m.vehicle_profile p);
}
