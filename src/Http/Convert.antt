-- ===== src/Http/Convert.antt =====
-- internal/adapters/httpapi/server.go, the conversions of what the services return into documents:
-- tripSummaryFromDomain and its like. The loops that append to a slice are `map`.
use eastbay_overland_rally_p.Prelude.{Option, none, some, map}
use mathlib.Core.Option as Opt
use eastbay_overland_rally_p.Domain
use eastbay_overland_rally_p.Trips.Types
use eastbay_overland_rally_p.Http.Oas.{Nullable, absent, given, Date, Coordinates}
use eastbay_overland_rally_p.Http.Oas

-- nullableString, nullableInt, and the tests `if p != nil` before NewNullableWithValue
abbrev pub nullable : {A : Type 0} → Option A → Nullable A
nullable none = absent
nullable (some a) = given a

-- nullableDate
abbrev pub nullable_date : Option Domain.Time → Nullable Date
nullable_date none = absent
nullable_date (some t) = given (record { time = Domain.utc t })

abbrev pub member_summary_from_domain : Domain.MemberSummary → Oas.MemberSummary
member_summary_from_domain m = record {
  member_id = m.id;
  display_name = m.display_name;
  email = m.email;
  group_alias_email = nullable m.group_alias_email;
}

abbrev pub trip_artifact_from_domain : Domain.TripArtifact → Oas.TripArtifact
trip_artifact_from_domain a = record {
  artifact_id = a.artifact_id;
  artifact_type = a.artifact_type;
  title = a.title;
  url = a.url;
}

-- both coordinates are written when one is there
abbrev pub coordinates : Option Domain.Float64 → Option Domain.Float64 → Nullable Coordinates
coordinates none none = absent
coordinates lat long = given (record { latitude = lat; longitude = long })

abbrev pub location_from_domain : Domain.Location → Oas.Location
location_from_domain l = record {
  label = l.label;
  address = nullable l.address;
  latitude_longitude = coordinates l.latitude l.longitude;
}

abbrev pub my_rsvp_from_domain : Domain.MyRsvp → Oas.MyRsvp
my_rsvp_from_domain m = record {
  trip_id = m.trip_id;
  member_id = m.member_id;
  response = m.response;
  updated_at = m.updated_at;
}

abbrev pub trip_rsvp_summary_from_domain : Domain.TripRsvpSummary → Oas.TripRsvpSummary
trip_rsvp_summary_from_domain s = record {
  attending_rigs = s.attending_rigs;
  attending_members = map member_summary_from_domain s.attending_members;
  not_attending_members = map member_summary_from_domain s.not_attending_members;
  capacity_rigs = nullable s.capacity_rigs;
}

abbrev pub trip_summary_from_domain : Domain.TripSummary → Oas.TripSummary
trip_summary_from_domain t = record {
  trip_id = t.id;
  status = t.status;
  name = nullable t.name;
  start_date = nullable_date t.start_date;
  end_date = nullable_date t.end_date;
  capacity_rigs = nullable t.capacity_rigs;
  attending_rigs = nullable t.attending_rigs;
  draft_visibility = t.draft_visibility;
}

abbrev pub trip_details_from_domain : Domain.TripDetails → Oas.TripDetails
trip_details_from_domain t = record {
  trip_id = t.id;
  status = t.status;
  rsvp_actions_enabled = t.rsvp_actions_enabled;
  name = nullable t.name;
  description = nullable t.description;
  start_date = nullable_date t.start_date;
  end_date = nullable_date t.end_date;
  capacity_rigs = nullable t.capacity_rigs;
  difficulty_text = nullable t.difficulty_text;
  comms_requirements_text = nullable t.comms_requirements_text;
  recommended_requirements_text = nullable t.recommended_requirements_text;
  draft_visibility = t.draft_visibility;
  meeting_location = Opt.map location_from_domain t.meeting_location;
  organizers = map member_summary_from_domain t.organizers;
  artifacts = map trip_artifact_from_domain t.artifacts;
  rsvp_summary = Opt.map trip_rsvp_summary_from_domain t.rsvp_summary;
  my_rsvp = Opt.map my_rsvp_from_domain t.my_rsvp;
}

-- the document of CreateTripDraft
abbrev pub trip_created_from_domain : Types.TripCreated → Oas.TripCreated
trip_created_from_domain t = record {
  trip_id = t.id;
  status = t.status;
  draft_visibility = t.draft_visibility;
}

abbrev pub vehicle_profile_from_domain : Domain.VehicleProfile → Oas.VehicleProfile
vehicle_profile_from_domain vp = record {
  make = nullable vp.make;
  model = nullable vp.model;
  tire_size = nullable vp.tire_size;
  lift_lockers = nullable vp.lift_lockers;
  fuel_range = nullable vp.fuel_range;
  recovery_gear = nullable vp.recovery_gear;
  ham_radio_call_sign = nullable vp.ham_radio_call_sign;
  notes = nullable vp.notes;
}

abbrev pub member_profile_from_domain : Domain.Member → Oas.MemberProfile
member_profile_from_domain m = record {
  member_id = m.id;
  display_name = m.display_name;
  email = m.email;
  group_alias_email = nullable m.group_alias_email;
  vehicle_profile = Opt.map vehicle_profile_from_domain m.vehicle_profile;
}

-- the document of ListMembers and SearchMembers
abbrev pub directory_entry_from_domain : Domain.Member → Oas.MemberDirectoryEntry
directory_entry_from_domain m = record { member_id = m.id; display_name = m.display_name }
