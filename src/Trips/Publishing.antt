-- ===== src/Trips/Publishing.antt =====
-- PublishTrip and CancelTrip of service.go, requiredPublishFieldsMissing and
-- announcementCopyFromTrip.
pub mod Errors
pub mod Readiness
pub mod Effects
pub mod Announced
mod Examples
use Prim.Native.String.{◌++◌ as ◌·◌}
use eastbay_overland_rally_p.Prelude.{
  ℤ, pos, ltb_ℤ, String, Bool, true, false, not, ◌&&◌, List, [], ◌∷◌, ◌++◌, Option, none, some,
  ◌==◌, string_eq, if◌then◌else◌,
}
use eastbay_overland_rally_p.Text.{trim_space, join}
use eastbay_overland_rally_p.Format.{format_int, format_date}
use eastbay_overland_rally_p.Domain.{
  Trip, TripId, MemberId, TripDetails, TripStatus, draft, published, canceled, other_status, Time,
  Location, is_public,
}
use eastbay_overland_rally_p.Ports.{Result, ok, err, Failure, app, texts}
use eastbay_overland_rally_p.Service.{Backend, World, Exec, pure, lift, reads, ◌>>=◌, ◌>>◌, ensure}
use eastbay_overland_rally_p.Trips.Types.{plain_error, invalid_status}
use eastbay_overland_rally_p.Trips.Access.{load_organized_trip}
use eastbay_overland_rally_p.Trips.Views.{trip_details_for_trip}
use eastbay_overland_rally_p.Trips.Saving.{save_and_show}

-- text that is there and not blank
unfoldable pub is_text : String → Bool
is_text s = not (trim_space s == "")

abbrev pub has_text : Option String → Bool
has_text none = false
has_text (some s) = is_text s

abbrev pub has_capacity : Option ℤ → Bool
has_capacity none = false
has_capacity (some n) = not (ltb_ℤ n (pos 1))

abbrev pub has_label : Option Location → Bool
has_label none = false
has_label (some l) = is_text l.label

abbrev pub is_set : {A : Type 0} → Option A → Bool
is_set none = false
is_set (some a) = true

abbrev pub is_filled : {A : Type 0} → List A → Bool
is_filled [] = false
is_filled (a ∷ l) = true

-- `if !present { missing = append(missing, field) }`, with the later fields
abbrev pub unless : Bool → String → List String → List String
unless present field later = if present then later else field ∷ later

unfoldable pub required_publish_fields_missing : Trip → List String
required_publish_fields_missing t = unless (has_text t.name) "name" (
    unless (has_text t.description) "description" (
      unless (is_set t.start_date) "startDate" (
        unless (is_set t.end_date) "endDate" (
          unless (has_capacity t.capacity_rigs) "capacityRigs" (
            unless (has_text t.difficulty_text) "difficultyText" (
              unless (has_label t.meeting_location) "meetingLocation" (
                unless (has_text t.comms_requirements_text) "commsRequirementsText" (
                  unless (has_text t.recommended_requirements_text) "recommendedRequirementsText"
                    (unless (is_filled t.organizer_member_ids) "organizers" [])))))))))

abbrev text_or : Option String → String → String
text_or none d = d
text_or (some s) d = if is_text s then trim_space s else d

date_line : Option Time → Option Time → String
date_line (some start) (some end) = "Dates: " · format_date start · " to " · format_date end
date_line (some start) none = "Start: " · format_date start
date_line none _ = "Dates: TBD"

capacity_line : Option ℤ → String
capacity_line none = ""
capacity_line (some n) = "Capacity: " · format_int n · " rigs"

address_part : Option String → String
address_part none = ""
address_part (some a) = if is_text a then " (" · trim_space a · ")" else ""

location_line : Option Location → String
location_line none = ""
location_line (some l) =
    if is_text l.label then "Meet: " · trim_space l.label · address_part l.address else ""

-- a line that is left out when it is empty
abbrev optional_line : String → List String
optional_line line = if line == "" then [] else line ∷ []

abbrev description_lines : String → List String
description_lines desc = if desc == "" then [] else "" ∷ desc ∷ []

pub announcement_copy_from_trip : TripDetails → String
unfolding date_line capacity_line location_line address_part
announcement_copy_from_trip d =
    join
      (("Trip: " · text_or d.name "(untitled)")
        ∷ (date_line d.start_date d.end_date
            ∷ (optional_line (capacity_line d.capacity_rigs)
                ++ (optional_line (location_line d.meeting_location)
                    ++ (description_lines (text_or d.description "")
                        ++ ("" ∷ "RSVP in the app once you’re ready." ∷ []))))))
      "\n"

abbrev pub not_ready : List String → Failure
not_ready missing = app (record {
  status = 409;
  code = "TRIP_NOT_READY_TO_PUBLISH";
  message = "trip is missing required fields for publish";
  details = ("missing", texts missing) ∷ [];
})

abbrev pub nothing_missing : List String → Result Unit
nothing_missing [] = ok tt
nothing_missing (f ∷ fs) = err (not_ready (f ∷ fs))

abbrev pub private_draft_error : Failure
private_draft_error = plain_error 409 "TRIP_PRIVATE_DRAFT" "private drafts cannot be published"

abbrev pub publish_canceled : Failure
publish_canceled = plain_error 409 "TRIP_CANCELED" "trip is canceled and cannot be published"

abbrev pub zero_if_unset : Option ℤ → Option ℤ
zero_if_unset none = some (pos 0)
zero_if_unset (some n) = some n

module _ (B : Backend) where
  -- the reply of PublishTrip: the details and the announcement made from them
  abbrev announce : Exec B TripDetails → Exec B (TripDetails × String)
  announce show = do d ← show; pure (d, announcement_copy_from_trip d)

  publish_draft : Trip → Exec B (TripDetails × String)
  publish_draft t = do
    ensure (is_public t.draft_visibility) private_draft_error
    lift (nothing_missing (required_publish_fields_missing t))
    announce (
        save_and_show B
          (record t { status = published; attending_rigs = zero_if_unset t.attending_rigs }))

  publish_status : TripStatus → Trip → Exec B (TripDetails × String)
  unfolding publish_draft
  publish_status published t = announce (reads (trip_details_for_trip B t))
  publish_status canceled t = lift (err publish_canceled)
  publish_status draft t = publish_draft t
  publish_status (other_status _) t = lift (err invalid_status)

  pub publish_trip : MemberId → TripId → Exec B (TripDetails × String)
  unfolding publish_status
  publish_trip caller trip_id = do
    t ← reads (load_organized_trip B caller trip_id)
    publish_status t.status t

  cancel_status : TripStatus → Trip → Exec B TripDetails
  cancel_status canceled t = reads (trip_details_for_trip B t)
  cancel_status draft t = save_and_show B (record t { status = canceled })
  cancel_status published t = save_and_show B (record t { status = canceled })
  cancel_status (other_status _) t = lift (err invalid_status)

  pub cancel_trip : MemberId → TripId → Exec B TripDetails
  unfolding cancel_status
  cancel_trip caller trip_id = do
    t ← reads (load_organized_trip B caller trip_id)
    cancel_status t.status t
