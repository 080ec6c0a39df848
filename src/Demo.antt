-- ===== src/Demo.antt =====
-- A small planner with the repositories in memory, for the examples: three trips and two members.
use eastbay_overland_rally_p.Prelude.{ℕ, pos, String, List, [], ◌∷◌, none, some, true}
use eastbay_overland_rally_p.Text.{Unicode}
use eastbay_overland_rally_p.Domain.{
  Trip, MemberId, Member, draft, published, private_draft, public_draft, Time, TripArtifact,
  ArtifactType, TripDetails, MemberSummary,
}
use eastbay_overland_rally_p.Ports.{RsvpRepository, err, backend}
use eastbay_overland_rally_p.Service.{Backend, World}
use eastbay_overland_rally_p.Memory.Trips.{memory_trips}
use eastbay_overland_rally_p.Memory.Members.{memory_members}
use eastbay_overland_rally_p.Memory.Rsvps.{memory_rsvps, RsvpStore}

abbrev pub at : ℕ → Time
at n = record { instant = n; location = "UTC" }

abbrev pub no_tables : Unicode
no_tables = record { to_lower_char = λ c. c; fold_char = λ c. c }

abbrev pub demo : Backend
demo = record {
  trips = memory_trips;
  members = memory_members no_tables;
  rsvps = memory_rsvps;
  unicode = no_tables;
  now = at;
  new_trip_id = λ n. "t-new";
  new_member_id = λ n. "m-new";
}

-- the same planner while no answer can be written
abbrev pub broken_rsvps : RsvpRepository
broken_rsvps = record {
  Store = RsvpStore;
  get = memory_rsvps.get;
  upsert = λ r s. (err (backend "connection lost"), s);
  list_by_trip = memory_rsvps.list_by_trip;
  count_yes_by_trip = memory_rsvps.count_yes_by_trip;
}

abbrev pub broken : Backend
broken = record {
  trips = memory_trips;
  members = memory_members no_tables;
  rsvps = broken_rsvps;
  unicode = no_tables;
  now = at;
  new_trip_id = λ n. "t-new";
  new_member_id = λ n. "m-new";
}

abbrev pub gpx_track : TripArtifact
gpx_track = record {
  artifact_id = "a1";
  artifact_type = ArtifactType.gpx;
  title = "Track";
  url = "https://example.com/a1";
}

abbrev pub schedule_sheet : TripArtifact
schedule_sheet = record {
  artifact_id = "a2";
  artifact_type = ArtifactType.schedule;
  title = "Schedule";
  url = "https://example.com/a2";
}

-- a public draft that lacks nothing
abbrev pub ready_draft : Trip
ready_draft = record {
  id = "t-ready";
  status = draft;
  name = some "Rubicon";
  description = some "Three days";
  creator_member_id = "m-ann";
  organizer_member_ids = "m-ann" ∷ [];
  draft_visibility = public_draft;
  start_date = some (at 10);
  end_date = some (at 20);
  capacity_rigs = some (pos 2);
  attending_rigs = none;
  difficulty_text = some "Hard";
  meeting_location =
      some (record { label = "Loon Lake"; address = none; latitude = none; longitude = none });
  comms_requirements_text = some "Ham";
  recommended_requirements_text = some "Lockers";
  artifacts = gpx_track ∷ schedule_sheet ∷ [];
  created_at = at 1;
  updated_at = at 1;
}

abbrev pub live_trip : Trip
live_trip = record ready_draft { id = "t-live"; status = published; attending_rigs = some (pos 0) }

abbrev pub secret_draft : Trip
secret_draft = record ready_draft { id = "t-secret"; draft_visibility = private_draft }

abbrev pub member : MemberId → String → Member
member id name = record {
  id = id;
  subject = id;
  display_name = name;
  email = name;
  group_alias_email = none;
  vehicle_profile = none;
  is_active = true;
  created_at = at 1;
  updated_at = at 1;
}

abbrev pub start : World demo
start = record {
  trips = ("t-live", live_trip) ∷ ("t-ready", ready_draft) ∷ ("t-secret", secret_draft) ∷ [];
  members = record {
    by_id = ("m-ann", member "m-ann" "Ann") ∷ ("m-bob", member "m-bob" "Bob") ∷ [];
    id_by_sub = ("m-ann", "m-ann") ∷ ("m-bob", "m-bob") ∷ [];
  };
  rsvps = [];
  readings = 100;
  minted = 0;
}

abbrev pub broken_start : World broken
broken_start = record {
  trips = start.trips;
  members = start.members;
  rsvps = [];
  readings = 100;
  minted = 0;
}

abbrev pub shown_member : MemberId → String → MemberSummary
shown_member id name = record {
  id = id;
  display_name = name;
  email = name;
  group_alias_email = none;
}

-- the reply that shows a published trip without answers
abbrev pub shown : Trip → List MemberSummary → TripDetails
shown t organizers = record {
  summary = record {
    id = t.id;
    name = t.name;
    start_date = t.start_date;
    end_date = t.end_date;
    status = published;
    draft_visibility = none;
    capacity_rigs = t.capacity_rigs;
    attending_rigs = some (pos 0);
  };
  description = t.description;
  difficulty_text = t.difficulty_text;
  meeting_location = t.meeting_location;
  comms_requirements_text = t.comms_requirements_text;
  recommended_requirements_text = t.recommended_requirements_text;
  organizers = organizers;
  artifacts = t.artifacts;
  rsvp_summary = some (record {
    capacity_rigs = t.capacity_rigs;
    attending_rigs = pos 0;
    attending_members = [];
    not_attending_members = [];
  });
  my_rsvp = none;
  rsvp_actions_enabled = true;
}
