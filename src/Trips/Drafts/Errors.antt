-- ===== src/Trips/Drafts/Errors.antt =====
-- The errors of CreateTripDraft, UpdateTrip and SetTripDraftVisibility.
use eastbay_overland_rally_p.Prelude.{not, [], refl, ◌==◌, string_eq}
use eastbay_overland_rally_p.Text.{normalize_human_name}
use eastbay_overland_rally_p.Domain.{
  Trip, TripId, MemberId, Member, DraftVisibility, private_draft, public_draft, other_visibility,
  draft, is_draft,
}
use eastbay_overland_rally_p.Ports.{
  Result, ok, err, app, backend, trip_not_found, trip_already_exists, member_not_found,
  subject_already_bound, member_already_exists, rsvp_not_found,
}
use eastbay_overland_rally_p.Ports.Errors.{statuses, Within, require-Within}
use eastbay_overland_rally_p.Service.{Backend, lift, reads, ensure, read_clock}
use eastbay_overland_rally_p.Service.Errors.{Throws, always, returns, bind-Throws, ForeignErrors}
use eastbay_overland_rally_p.Trips.Errors.{
  load_trip-Within, load_visible_trip-Within, save_and_show-Throws,
}
use eastbay_overland_rally_p.Trips.Types.{
  UpdateTripInput, CreateTripDraftInput, no_such_trip, validation_error, plain_error,
}
use eastbay_overland_rally_p.Trips.Access.{load_trip, load_visible_trip}
use eastbay_overland_rally_p.Trips.Patch.{authorize_update, patch_trip}
use eastbay_overland_rally_p.Trips.Patch.Errors.{authorize_update-Within, patch_trip-Within}
use eastbay_overland_rally_p.Trips.Drafts.{
  or_unknown_caller, or_id_conflict, new_draft, known_visibility, mint_trip_id, insert_trip,
  create_trip_draft, update_trip, set_trip_draft_visibility,
}

or_unknown_caller-Within : (r : Result Member) → Within [] r → Within statuses (or_unknown_caller r)
or_unknown_caller-Within (ok a) h = tt
or_unknown_caller-Within (err (app e)) h = absurd cc
or_unknown_caller-Within (err (backend text)) h = tt
or_unknown_caller-Within (err trip_not_found) h = tt
or_unknown_caller-Within (err trip_already_exists) h = tt
or_unknown_caller-Within (err member_not_found) h = refl
or_unknown_caller-Within (err subject_already_bound) h = tt
or_unknown_caller-Within (err member_already_exists) h = tt
or_unknown_caller-Within (err rsvp_not_found) h = tt

or_id_conflict-Within : (r : Result Unit) → Within [] r → Within statuses (or_id_conflict r)
or_id_conflict-Within (ok a) h = tt
or_id_conflict-Within (err (app e)) h = absurd cc
or_id_conflict-Within (err (backend text)) h = tt
or_id_conflict-Within (err trip_not_found) h = tt
or_id_conflict-Within (err trip_already_exists) h = refl
or_id_conflict-Within (err member_not_found) h = tt
or_id_conflict-Within (err subject_already_bound) h = tt
or_id_conflict-Within (err member_already_exists) h = tt
or_id_conflict-Within (err rsvp_not_found) h = tt

known_visibility-Within : (dv : DraftVisibility) → Within statuses (known_visibility dv)
known_visibility-Within private_draft = tt
known_visibility-Within public_draft = tt
known_visibility-Within (other_visibility s) = refl

module _ {B : Backend} (F : ForeignErrors B) (caller : MemberId) where
  insert_trip-Throws : (t : Trip) → Throws statuses (insert_trip B t)
  unfolding insert_trip
  insert_trip-Throws t =
      always statuses
        λ w. or_id_conflict-Within (B.trips.create t w.trips).0 (F.trip_created t w.trips)

  pub create_trip_draft-Throws :
      (input : CreateTripDraftInput) → Throws statuses (create_trip_draft B caller input)
  unfolding create_trip_draft mint_trip_id
  create_trip_draft-Throws input =
      bind-Throws statuses
        (reads {B = B} (λ w. or_unknown_caller (B.members.get_by_id caller w.members))) _
        (always statuses λ w.
          or_unknown_caller-Within (B.members.get_by_id caller w.members)
            (F.member_by_id caller w.members))
        λ me.
          let name = normalize_human_name input.name in
          let invalid = validation_error "invalid name" "name" "must be non-empty" in
          bind-Throws statuses (ensure {B = B} (not (name == "")) invalid) _
            (always statuses λ w. require-Within statuses (not (name == "")) invalid refl)
            λ u. bind-Throws statuses (read_clock {B = B}) _ (always statuses λ w. tt) λ now.
              bind-Throws statuses (mint_trip_id B) _ (always statuses λ w. tt) λ id.
                let t = new_draft id caller name now in
                bind-Throws statuses (insert_trip B t) _ (insert_trip-Throws t) (λ v.
                  returns statuses
                    (record { id = id; status = draft; draft_visibility = private_draft }))

  pub update_trip-Throws :
      (id : TripId) (p : UpdateTripInput) → Throws statuses (update_trip B caller id p)
  unfolding update_trip
  update_trip-Throws id p =
      bind-Throws statuses (reads {B = B} (load_trip B id)) _
        (always statuses (load_trip-Within statuses refl F id))
        λ t.
          bind-Throws statuses (lift {B = B} (authorize_update t caller)) _
            (always statuses λ w. authorize_update-Within t caller)
            λ u.
              bind-Throws statuses (lift {B = B} (patch_trip p t)) _
                (always statuses λ w. patch_trip-Within p t) (save_and_show-Throws F statuses)

  pub set_trip_draft_visibility-Throws :
      (id : TripId) (dv : DraftVisibility)
      → Throws statuses (set_trip_draft_visibility B caller id dv)
  unfolding set_trip_draft_visibility
  set_trip_draft_visibility-Throws id dv =
      bind-Throws statuses (reads {B = B} (load_visible_trip B caller id)) _
        (always statuses (λ w. load_visible_trip-Within statuses refl F id w caller))
        λ t.
          let late = plain_error 409 "TRIP_NOT_DRAFT" "trip is not a draft" in
          bind-Throws statuses (ensure {B = B} (is_draft t.status) late) _
            (always statuses λ w. require-Within statuses (is_draft t.status) late refl)
            λ u.
              bind-Throws statuses (ensure {B = B} (t.creator_member_id == caller) no_such_trip) _
                (always statuses
                  λ w. require-Within statuses (t.creator_member_id == caller) no_such_trip refl)
                λ v.
                  bind-Throws statuses (lift {B = B} (known_visibility dv)) _
                    (always statuses λ w. known_visibility-Within dv)
                    (λ visibility.
                      save_and_show-Throws F statuses (record t { draft_visibility = visibility }))
