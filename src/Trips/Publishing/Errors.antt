-- ===== src/Trips/Publishing/Errors.antt =====
-- The errors of PublishTrip and CancelTrip.
use eastbay_overland_rally_p.Prelude.{String, List, [], ◌∷◌, refl}
use eastbay_overland_rally_p.Domain.{
  Trip, TripId, MemberId, TripDetails, TripStatus, draft, published, canceled, other_status,
  is_public,
}
use eastbay_overland_rally_p.Ports.Errors.{statuses, Within, require-Within}
use eastbay_overland_rally_p.Service.{Backend, Exec, lift, reads, ensure}
use eastbay_overland_rally_p.Service.Errors.{Throws, always, returns, bind-Throws, ForeignErrors}
use eastbay_overland_rally_p.Trips.Errors.{
  load_organized_trip-Within, trip_details_for_trip-Within, save_and_show-Throws,
}
use eastbay_overland_rally_p.Trips.Access.{load_organized_trip}
use eastbay_overland_rally_p.Trips.Views.{trip_details_for_trip}
use eastbay_overland_rally_p.Trips.Saving.{save_and_show}
use eastbay_overland_rally_p.Trips.Publishing.{
  nothing_missing, required_publish_fields_missing, private_draft_error, zero_if_unset, announce,
  announcement_copy_from_trip, publish_draft, publish_status, publish_trip, cancel_status,
  cancel_trip,
}

nothing_missing-Within : (l : List String) → Within statuses (nothing_missing l)
nothing_missing-Within [] = tt
nothing_missing-Within (f ∷ fs) = refl

module _ {B : Backend} (F : ForeignErrors B) where
  announce-Throws :
      (show : Exec B TripDetails) → Throws statuses show → Throws statuses (announce B show)
  announce-Throws show h =
      bind-Throws statuses show _ h λ d. returns statuses (d, announcement_copy_from_trip d)

  publish_draft-Throws : (t : Trip) → Throws statuses (publish_draft B t)
  unfolding publish_draft
  publish_draft-Throws t =
      bind-Throws statuses (ensure {B = B} (is_public t.draft_visibility) private_draft_error) _
        (always statuses
          λ w. require-Within statuses (is_public t.draft_visibility) private_draft_error refl)
        λ u.
          let missing = required_publish_fields_missing t in
          let t' = record t {
            status = published;
            attending_rigs = zero_if_unset t.attending_rigs;
          } in
          bind-Throws statuses (lift {B = B} (nothing_missing missing))
            (λ v. announce B (save_and_show B t'))
            (always statuses λ w. nothing_missing-Within missing)
            (λ v. announce-Throws (save_and_show B t') (save_and_show-Throws F statuses t'))

  publish_status-Throws : (s : TripStatus) (t : Trip) → Throws statuses (publish_status B s t)
  unfolding publish_status
  publish_status-Throws published t =
      announce-Throws (reads (trip_details_for_trip B t))
        (always statuses (trip_details_for_trip-Within F statuses t))
  publish_status-Throws canceled t = always statuses λ w. refl
  publish_status-Throws draft t = publish_draft-Throws t
  publish_status-Throws (other_status s) t = always statuses λ w. refl

  pub publish_trip-Throws :
      (caller : MemberId) (id : TripId) → Throws statuses (publish_trip B caller id)
  unfolding publish_trip
  publish_trip-Throws caller id =
      bind-Throws statuses (reads {B = B} (load_organized_trip B caller id)) _
        (always statuses (λ w. load_organized_trip-Within statuses refl F id w caller))
        (λ t. publish_status-Throws t.status t)

  cancel_status-Throws : (s : TripStatus) (t : Trip) → Throws statuses (cancel_status B s t)
  unfolding cancel_status
  cancel_status-Throws canceled t = always statuses (trip_details_for_trip-Within F statuses t)
  cancel_status-Throws draft t = save_and_show-Throws F statuses (record t { status = canceled })
  cancel_status-Throws published t =
      save_and_show-Throws F statuses (record t { status = canceled })
  cancel_status-Throws (other_status s) t = always statuses λ w. refl

  pub cancel_trip-Throws :
      (caller : MemberId) (id : TripId) → Throws statuses (cancel_trip B caller id)
  unfolding cancel_trip
  cancel_trip-Throws caller id =
      bind-Throws statuses (reads {B = B} (load_organized_trip B caller id)) _
        (always statuses (λ w. load_organized_trip-Within statuses refl F id w caller))
        (λ t. cancel_status-Throws t.status t)
