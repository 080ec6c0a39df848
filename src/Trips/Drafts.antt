-- ===== src/Trips/Drafts.antt =====
-- CreateTripDraft, UpdateTrip and SetTripDraftVisibility of service.go.
pub mod Errors
pub mod Effects
pub mod Updated
mod Examples
use eastbay_overland_rally_p.Prelude.{
  String, Bool, true, false, not, List, [], ◌∷◌, Option, none, some, ◌==◌, string_eq, ◌+◌,
}
use eastbay_overland_rally_p.Text.{normalize_human_name}
use eastbay_overland_rally_p.Domain.{
  Trip, TripId, MemberId, TripDetails, draft, DraftVisibility, private_draft, public_draft,
  other_visibility, Time, is_draft, Member,
}
use eastbay_overland_rally_p.Ports.{Result, ok, err, Failure, member_not_found, trip_already_exists}
use eastbay_overland_rally_p.Service.{
  Backend, World, Exec, pure, lift, reads, ◌>>=◌, ◌>>◌, ensure, read_clock, create_trip,
}
use eastbay_overland_rally_p.Trips.Types.{
  CreateTripDraftInput, TripCreated, UpdateTripInput, plain_error, validation_error, no_such_trip,
}
use eastbay_overland_rally_p.Trips.Access.{load_trip, load_visible_trip}
use eastbay_overland_rally_p.Trips.Saving.{save_and_show}
use eastbay_overland_rally_p.Trips.Patch.{authorize_update, patch_trip}

abbrev unknown_caller : Failure
unknown_caller = validation_error "invalid caller" "memberId" "caller does not exist"

abbrev or_unknown_caller : Result Member → Result Member
or_unknown_caller (err member_not_found) = err unknown_caller
or_unknown_caller r = r

abbrev or_id_conflict : Result Unit → Result Unit
or_id_conflict (err trip_already_exists) =
    err (plain_error 409 "TRIP_ID_CONFLICT" "trip id conflict")
or_id_conflict r = r

-- the trip that CreateTripDraft builds
abbrev pub new_draft : TripId → MemberId → String → Time → Trip
new_draft id caller name now = record {
  id = id;
  status = draft;
  name = some name;
  description = none;
  creator_member_id = caller;
  organizer_member_ids = caller ∷ [];
  draft_visibility = private_draft;
  start_date = none;
  end_date = none;
  capacity_rigs = none;
  attending_rigs = none;
  difficulty_text = none;
  meeting_location = none;
  comms_requirements_text = none;
  recommended_requirements_text = none;
  artifacts = [];
  created_at = now;
  updated_at = now;
}

-- the visibilities that SetTripDraftVisibility takes
abbrev pub known_visibility : DraftVisibility → Result DraftVisibility
known_visibility private_draft = ok private_draft
known_visibility public_draft = ok public_draft
known_visibility (other_visibility _) =
    err (validation_error "invalid draftVisibility" "draftVisibility" "must be PRIVATE or PUBLIC")

module _ (B : Backend) where
  mint_trip_id : Exec B TripId
  mint_trip_id w = (ok (B.new_trip_id w.minted), record w { minted = w.minted + 1 })

  insert_trip : Trip → Exec B Unit
  insert_trip t w = let (r, w') = create_trip t w in (or_id_conflict r, w')

  pub create_trip_draft : MemberId → CreateTripDraftInput → Exec B TripCreated
  unfolding mint_trip_id insert_trip
  create_trip_draft caller input = do
    _ ← reads (λ w. or_unknown_caller (B.members.get_by_id caller w.members))
    let name = normalize_human_name input.name
    ensure (not (name == "")) (validation_error "invalid name" "name" "must be non-empty")
    now ← read_clock
    id ← mint_trip_id
    insert_trip (new_draft id caller name now)
    pure (record { id = id; status = draft; draft_visibility = private_draft })

  pub update_trip : MemberId → TripId → UpdateTripInput → Exec B TripDetails
  update_trip caller trip_id p = do
    t ← reads (load_trip B trip_id)
    lift (authorize_update t caller)
    t' ← lift (patch_trip p t)
    save_and_show B t'

  pub set_trip_draft_visibility : MemberId → TripId → DraftVisibility → Exec B TripDetails
  set_trip_draft_visibility caller trip_id dv = do
    t ← reads (load_visible_trip B caller trip_id)
    ensure (is_draft t.status) (plain_error 409 "TRIP_NOT_DRAFT" "trip is not a draft")
    ensure (t.creator_member_id == caller) no_such_trip
    visibility ← lift (known_visibility dv)
    save_and_show B (record t { draft_visibility = visibility })
