-- ===== src/Trips/Patch/Errors.antt =====
-- The errors of a patch.
use eastbay_overland_rally_p.Prelude.{
  ℤ, pos, ltb_ℤ, String, not, ◌&&◌, List, [], ◌∷◌, Option, none, some, refl, inl, inr, Bool-cases,
  ◌==◌, string_eq,
}
use eastbay_overland_rally_p.Prelude.Assoc.{Assoc, lookup}
use eastbay_overland_rally_p.Text.{normalize_human_name}
use eastbay_overland_rally_p.Domain.{
  Trip, MemberId, Time, before, TripStatus, draft, published, canceled, other_status, is_private,
  is_public, is_published, TripArtifact,
}
use eastbay_overland_rally_p.Ports.{require}
use eastbay_overland_rally_p.Ports.Errors.{statuses, Within, require-Within, bind-Within}
use eastbay_overland_rally_p.Trips.Types.{
  Optional, unspecified, null, value, UpdateTripInput, no_such_trip,
}
use eastbay_overland_rally_p.Trips.Access.{is_organizer, is_draft_visible_to_caller}
use eastbay_overland_rally_p.Trips.Patch.{
  authorize_status, authorize_update, apply_name, current_attendance, apply_capacity,
  found_artifact, index_artifacts, pick_artifacts, reorder_artifacts_by_id, apply_artifact_ids,
  invalid_dates, check_dates, with_text_fields, with_meeting_location, patch_trip,
}

authorize_status-Within :
    (s : TripStatus) (t : Trip) (caller : MemberId) → Within statuses (authorize_status s t caller)
unfolding authorize_status
authorize_status-Within draft t caller =
    bind-Within statuses (require (is_draft_visible_to_caller t caller) no_such_trip) _
      (require-Within statuses (is_draft_visible_to_caller t caller) no_such_trip refl)
      λ u.
        let own = not (is_private t.draft_visibility && not (t.creator_member_id == caller)) in
        bind-Within statuses (require own no_such_trip) _
          (require-Within statuses own no_such_trip refl)
          (λ v.
            require-Within statuses
              (not (is_public t.draft_visibility && not (is_organizer t caller))) no_such_trip refl)
authorize_status-Within published t caller =
    require-Within statuses (is_organizer t caller) no_such_trip refl
authorize_status-Within canceled t caller = refl
authorize_status-Within (other_status s) t caller = refl

pub authorize_update-Within :
    (t : Trip) (caller : MemberId) → Within statuses (authorize_update t caller)
unfolding authorize_update
authorize_update-Within t caller = authorize_status-Within t.status t caller

apply_name-Within : (n : Optional String) (t : Trip) → Within statuses (apply_name n t)
unfolding apply_name
apply_name-Within unspecified t = tt
apply_name-Within null t = refl
apply_name-Within (value v) t = elim (Bool-cases (normalize_human_name v == "")) [
  | inl empty ↦ rw empty refl
  | inr there ↦ rw there tt
]

apply_capacity-Within : (c : Optional ℤ) (t : Trip) → Within statuses (apply_capacity c t)
unfolding apply_capacity
apply_capacity-Within unspecified t = tt
apply_capacity-Within null t = tt
apply_capacity-Within (value v) t = elim (Bool-cases (ltb_ℤ v (pos 1))) [
  | inl small ↦ rw small refl
  | inr positive ↦
      let full = is_published t.status && ltb_ℤ v (current_attendance t.attending_rigs) in
      rw positive (elim (Bool-cases full) [ inl below ↦ rw below refl | inr enough ↦ rw enough tt ])
]

found_artifact-Within :
    (a : Option TripArtifact) (id : String) → Within statuses (found_artifact a id)
found_artifact-Within none id = refl
found_artifact-Within (some a) id = tt

pick_artifacts-Within :
    (m : Assoc String TripArtifact) (ids : List String) → Within statuses (pick_artifacts m ids)
unfolding pick_artifacts
pick_artifacts-Within m [] = tt
pick_artifacts-Within m (id ∷ ids) =
    bind-Within statuses (found_artifact (lookup id m) id) _
      (found_artifact-Within (lookup id m) id)
      λ a. bind-Within statuses (pick_artifacts m ids) _ (pick_artifacts-Within m ids) (λ rest. tt)

apply_artifact_ids-Within :
    (ids : Optional (List String)) (t : Trip) → Within statuses (apply_artifact_ids ids t)
unfolding apply_artifact_ids reorder_artifacts_by_id
apply_artifact_ids-Within unspecified t = tt
apply_artifact_ids-Within null t = tt
apply_artifact_ids-Within (value ids) t =
    bind-Within statuses (reorder_artifacts_by_id t.artifacts ids) _
      (pick_artifacts-Within (index_artifacts [] t.artifacts) ids) (λ arranged. tt)

check_dates-Within : (start end : Option Time) → Within statuses (check_dates start end)
unfolding check_dates
check_dates-Within none none = tt
check_dates-Within none (some end) = tt
check_dates-Within (some start) none = tt
check_dates-Within (some start) (some end) =
    require-Within statuses (not (before end start)) invalid_dates refl

pub patch_trip-Within : (p : UpdateTripInput) (t : Trip) → Within statuses (patch_trip p t)
unfolding patch_trip
patch_trip-Within p t =
    bind-Within statuses (apply_name p.name t) _ (apply_name-Within p.name t) λ named.
      bind-Within statuses (apply_capacity p.capacity_rigs (with_text_fields p named)) _
        (apply_capacity-Within p.capacity_rigs (with_text_fields p named))
        λ sized.
          bind-Within statuses (apply_artifact_ids p.artifact_ids (with_meeting_location p sized)) _
            (apply_artifact_ids-Within p.artifact_ids (with_meeting_location p sized))
            λ arranged.
              bind-Within statuses (check_dates arranged.start_date arranged.end_date) _
                (check_dates-Within arranged.start_date arranged.end_date) (λ u. tt)
