-- ===== src/Http/Inputs.antt =====
-- internal/adapters/httpapi/server.go, the conversions of the bodies of requests into the inputs of
-- the services: updateTripInputFromOAS and its like.
use eastbay_overland_rally_p.Prelude.{String, Option, none, some, Bool, true, false}
use mathlib.Core.Option as Opt
use eastbay_overland_rally_p.Text.{trim_space}
use eastbay_overland_rally_p.Domain.{Time, Float64}
use eastbay_overland_rally_p.Trips.Types.{Optional, unspecified, null, value, UpdateTripInput}
use eastbay_overland_rally_p.Trips.Types
use eastbay_overland_rally_p.Members.Types.{
  VehicleProfilePatch, UpdateMyMemberProfileInput, CreateMyMemberInput,
}
use eastbay_overland_rally_p.Http.Oas.{
  Nullable, absent, explicit_null, given, Date, CoordinatesPatch, UpdateTripRequest,
  CreateMemberRequest, UpdateMyMemberProfileRequest,
}
use eastbay_overland_rally_p.Http.Oas

-- optionalStringFromNullable, and the four functions of the same body for the trips
abbrev pub optional_from_nullable : {A : Type 0} → Nullable A → Optional A
optional_from_nullable absent = unspecified
optional_from_nullable explicit_null = null
optional_from_nullable (given a) = value a

-- optionalTimeFromNullableDateTrips
abbrev pub optional_time_from_nullable_date : Nullable Date → Optional Time
optional_time_from_nullable_date absent = unspecified
optional_time_from_nullable_date explicit_null = null
optional_time_from_nullable_date (given d) = value d.time

-- a pointer that is there is a value; none is never a null
abbrev pub optional_from_pointer : {A : Type 0} → Option A → Optional A
optional_from_pointer none = unspecified
optional_from_pointer (some a) = value a

-- what LatitudeLongitude says of each coordinate
abbrev pub latitude_of : Nullable CoordinatesPatch → Optional Float64
latitude_of (given c) = optional_from_nullable c.latitude
latitude_of _ = unspecified

abbrev pub longitude_of : Nullable CoordinatesPatch → Optional Float64
longitude_of (given c) = optional_from_nullable c.longitude
longitude_of _ = unspecified

abbrev pub clears_coordinates : Nullable CoordinatesPatch → Bool
clears_coordinates explicit_null = true
clears_coordinates _ = false

abbrev pub location_patch_from_oas : Oas.LocationPatch → Types.LocationPatch
location_patch_from_oas l = record {
  label = optional_from_nullable l.label;
  address = optional_from_nullable l.address;
  latitude = latitude_of l.latitude_longitude;
  longitude = longitude_of l.latitude_longitude;
  clear_coordinates = clears_coordinates l.latitude_longitude;
}

-- out.MeetingLocation = trips.Some(&lp)
abbrev pub meeting_location_from_oas :
    Option Oas.LocationPatch → Optional (Option Types.LocationPatch)
meeting_location_from_oas none = unspecified
meeting_location_from_oas (some l) = value (some (location_patch_from_oas l))

unfoldable pub update_trip_input_from_oas : UpdateTripRequest → UpdateTripInput
update_trip_input_from_oas b = record {
  name = optional_from_pointer b.name;
  description = optional_from_nullable b.description;
  difficulty_text = optional_from_nullable b.difficulty_text;
  comms_requirements_text = optional_from_nullable b.comms_requirements_text;
  recommended_requirements_text = optional_from_nullable b.recommended_requirements_text;
  capacity_rigs = optional_from_nullable b.capacity_rigs;
  start_date = optional_time_from_nullable_date b.start_date;
  end_date = optional_time_from_nullable_date b.end_date;
  artifact_ids = optional_from_nullable b.artifact_ids;
  meeting_location = meeting_location_from_oas b.meeting_location;
}

unfoldable pub vehicle_profile_patch_from_oas : Oas.VehicleProfile → VehicleProfilePatch
vehicle_profile_patch_from_oas vp = record {
  make = optional_from_nullable vp.make;
  model = optional_from_nullable vp.model;
  tire_size = optional_from_nullable vp.tire_size;
  lift_lockers = optional_from_nullable vp.lift_lockers;
  fuel_range = optional_from_nullable vp.fuel_range;
  recovery_gear = optional_from_nullable vp.recovery_gear;
  ham_radio_call_sign = optional_from_nullable vp.ham_radio_call_sign;
  notes = optional_from_nullable vp.notes;
}

-- the text without the spaces around it
abbrev pub trimmed : Optional String → Optional String
trimmed unspecified = unspecified
trimmed null = null
trimmed (value v) = value (trim_space v)

unfoldable pub update_my_member_profile_input_from_oas :
    UpdateMyMemberProfileRequest → UpdateMyMemberProfileInput
update_my_member_profile_input_from_oas b = record {
  display_name = optional_from_nullable b.display_name;
  email = trimmed (optional_from_pointer b.email);
  group_alias_email = trimmed (optional_from_nullable b.group_alias_email);
  vehicle_profile =
      optional_from_pointer (Opt.map vehicle_profile_patch_from_oas b.vehicle_profile);
}

-- the alias of CreateMyMember, which is not trimmed
abbrev pub given_alias : Nullable String → Option String
given_alias (given v) = some v
given_alias _ = none

-- the input that CreateMyMember makes of its body
unfoldable pub create_my_member_input_from_oas : CreateMemberRequest → CreateMyMemberInput
create_my_member_input_from_oas b = record {
  display_name = b.display_name;
  email = b.email;
  group_alias_email = given_alias b.group_alias_email;
  vehicle_profile = Opt.map vehicle_profile_patch_from_oas b.vehicle_profile;
}
