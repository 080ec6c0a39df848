-- ===== src/Trips/Patch.antt =====
-- The parts of UpdateTrip in service.go, each on the trip alone: who may change it, the fields of the
-- patch one by one, applyLocationPatch, reorderArtifactsByID and the test of the dates.
pub mod Errors
pub mod Artifacts
pub mod Bounds
pub mod Authority
mod Examples
use Prim.Native.String.{◌++◌ as ◌·◌}
use eastbay_overland_rally_p.Prelude.{
  String, Bool, true, false, not, ◌&&◌, List, [], ◌∷◌, Option, none, some, ℤ, pos, ltb_ℤ, ◌==◌,
  string_eq, if◌then◌else◌,
}
use eastbay_overland_rally_p.Prelude.Assoc.{Assoc, lookup, insert}
use eastbay_overland_rally_p.Text.{normalize_human_name}
use eastbay_overland_rally_p.Domain.{
  Trip, MemberId, TripStatus, draft, published, canceled, other_status, Time, utc, before, Location,
  TripArtifact, is_published, is_private, is_public,
}
use eastbay_overland_rally_p.Ports.{Result, ok, err, Failure, app, int, require, ◌>>=◌, ◌>>◌}
use eastbay_overland_rally_p.Trips.Types.{
  Optional, unspecified, null, value, LocationPatch, UpdateTripInput, plain_error, validation_error,
  no_such_trip, invalid_status,
}
use eastbay_overland_rally_p.Trips.Access.{is_organizer, is_draft_visible_to_caller}

abbrev pub trip_is_canceled : Failure
trip_is_canceled = plain_error 409 "TRIP_CANCELED" "trip is canceled and cannot be modified"

authorize_status : TripStatus → Trip → MemberId → Result Unit
authorize_status draft t caller = do
  require (is_draft_visible_to_caller t caller) no_such_trip
  require (not (is_private t.draft_visibility && not (t.creator_member_id == caller))) no_such_trip
  require (not (is_public t.draft_visibility && not (is_organizer t caller))) no_such_trip
authorize_status published t caller = require (is_organizer t caller) no_such_trip
authorize_status canceled t caller = err trip_is_canceled
authorize_status (other_status _) t caller = err invalid_status

-- "Authorize based on current state"
unfoldable pub authorize_update : Trip → MemberId → Result Unit
unfolding authorize_status
authorize_update t caller = authorize_status t.status t caller

unfoldable pub apply_name : Optional String → Trip → Result Trip
apply_name unspecified t = ok t
apply_name null t = err (validation_error "invalid name" "name" "cannot be null")
apply_name (value v) t =
    let name = normalize_human_name v in
    if name == ""
    then err (validation_error "invalid name" "name" "must be non-empty")
    else ok (record t { name = some name })

-- applyNullableString, and the same for the other nullable fields
abbrev pub apply_nullable : {A : Type 0} → Optional A → Option A → Option A
apply_nullable unspecified dst = dst
apply_nullable null dst = none
apply_nullable (value v) dst = some v

abbrev pub apply_date : Optional Time → Option Time → Option Time
apply_date unspecified dst = dst
apply_date null dst = none
apply_date (value v) dst = some (utc v)

-- `curAtt`
abbrev pub current_attendance : Option ℤ → ℤ
current_attendance none = pos 0
current_attendance (some n) = n

abbrev pub below_attendance : ℤ → Failure
below_attendance cur_att = app (record {
  status = 409;
  code = "CAPACITY_BELOW_ATTENDANCE";
  message = "capacity cannot be reduced below current attendance";
  details = ("attendingRigs", int cur_att) ∷ [];
})

unfoldable pub apply_capacity : Optional ℤ → Trip → Result Trip
apply_capacity unspecified t = ok t
apply_capacity null t = ok (record t { capacity_rigs = none })
apply_capacity (value v) t =
    let cur_att = current_attendance t.attending_rigs in
    if ltb_ℤ v (pos 1)
    then err (validation_error "invalid capacityRigs" "capacityRigs" "must be >= 1")
    else if is_published t.status && ltb_ℤ v cur_att
    then err (below_attendance cur_att)
    else ok (record t { capacity_rigs = some v })

abbrev blank_location : Location
blank_location = record { label = ""; address = none; latitude = none; longitude = none }

abbrev location_or_blank : Option Location → Location
location_or_blank none = blank_location
location_or_blank (some l) = l

-- a null label leaves the label as it is
abbrev patched_label : Optional String → String → String
patched_label (value v) l = v
patched_label unspecified l = l
patched_label null l = l

patch_location : LocationPatch → Location → Location
patch_location p cur = record {
  label = patched_label p.label cur.label;
  address = apply_nullable p.address cur.address;
  latitude = apply_nullable p.latitude (if p.clear_coordinates then none else cur.latitude);
  longitude = apply_nullable p.longitude (if p.clear_coordinates then none else cur.longitude);
}

unfoldable pub apply_location_patch : Option Location → Option LocationPatch → Location
unfolding patch_location
apply_location_patch existing none = location_or_blank existing
apply_location_patch existing (some p) = patch_location p (location_or_blank existing)

abbrev pub apply_meeting_location :
    Optional (Option LocationPatch) → Option Location → Option Location
apply_meeting_location unspecified dst = dst
apply_meeting_location null dst = none
apply_meeting_location (value p) dst = some (apply_location_patch dst p)

-- byID: of two artifacts with one identifier the later one stays
index_artifacts : Assoc String TripArtifact → List TripArtifact → Assoc String TripArtifact
index_artifacts m [] = m
index_artifacts m (a ∷ rest) = index_artifacts (insert a.artifact_id a m) rest

abbrev pub unknown_artifact : String → Failure
unknown_artifact id =
    validation_error "invalid artifactIds" "artifactIds" ("unknown artifactId: " · id)

abbrev found_artifact : Option TripArtifact → String → Result TripArtifact
found_artifact none id = err (unknown_artifact id)
found_artifact (some a) id = ok a

pick_artifacts : Assoc String TripArtifact → List String → Result (List TripArtifact)
pick_artifacts m [] = ok []
pick_artifacts m (id ∷ ids) = do
  a ← found_artifact (lookup id m) id
  rest ← pick_artifacts m ids
  ok (a ∷ rest)

unfoldable pub reorder_artifacts_by_id :
    List TripArtifact → List String → Result (List TripArtifact)
unfolding index_artifacts pick_artifacts
reorder_artifacts_by_id existing ids = pick_artifacts (index_artifacts [] existing) ids

unfoldable pub apply_artifact_ids : Optional (List String) → Trip → Result Trip
apply_artifact_ids unspecified t = ok t
apply_artifact_ids null t = ok (record t { artifacts = [] })
apply_artifact_ids (value ids) t = do
  reordered ← reorder_artifacts_by_id t.artifacts ids
  ok (record t { artifacts = reordered })

abbrev pub invalid_dates : Failure
invalid_dates = validation_error "invalid date range" "endDate" "must be on or after startDate"

-- "Basic date sanity (if both set)"
unfoldable pub check_dates : Option Time → Option Time → Result Unit
check_dates (some start) (some end) = require (not (before end start)) invalid_dates
check_dates _ _ = ok tt

abbrev pub with_text_fields : UpdateTripInput → Trip → Trip
with_text_fields p t = record t {
  description = apply_nullable p.description t.description;
  difficulty_text = apply_nullable p.difficulty_text t.difficulty_text;
  comms_requirements_text = apply_nullable p.comms_requirements_text t.comms_requirements_text;
  recommended_requirements_text =
      apply_nullable p.recommended_requirements_text t.recommended_requirements_text;
  start_date = apply_date p.start_date t.start_date;
  end_date = apply_date p.end_date t.end_date;
}

abbrev pub with_meeting_location : UpdateTripInput → Trip → Trip
with_meeting_location p t = record t {
  meeting_location = apply_meeting_location p.meeting_location t.meeting_location;
}

-- UpdateTrip between the authorization and the save: the patched trip, or the first error
unfoldable pub patch_trip : UpdateTripInput → Trip → Result Trip
patch_trip p t = do
  named ← apply_name p.name t
  sized ← apply_capacity p.capacity_rigs (with_text_fields p named)
  arranged ← apply_artifact_ids p.artifact_ids (with_meeting_location p sized)
  check_dates arranged.start_date arranged.end_date
  ok arranged
