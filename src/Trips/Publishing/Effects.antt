-- ===== src/Trips/Publishing/Effects.antt =====
-- What PublishTrip and CancelTrip do to the store.
use eastbay_overland_rally_p.Prelude.{◌≡◌, refl, ◌⊎◌, inl, inr, true, [], arith}
use eastbay_overland_rally_p.Domain.{
  Trip, TripId, MemberId, TripStatus, draft, published, canceled, other_status, is_public,
}
use eastbay_overland_rally_p.Ports.{ok, err, Failure, Result-cases}
use eastbay_overland_rally_p.Ports.Laws.{TripLaws}
use eastbay_overland_rally_p.Service.{Backend, World}
use eastbay_overland_rally_p.Trips.Access.{load_organized_trip}
use eastbay_overland_rally_p.Trips.Access.Guards.{load_organized_trip-ok}
use eastbay_overland_rally_p.Trips.Saving.{save_and_show}
use eastbay_overland_rally_p.Trips.Evolution.{
  publishes, drops, cancels, Effect, save_and_show-Effect,
}
use eastbay_overland_rally_p.Trips.Publishing.{
  zero_if_unset, required_publish_fields_missing, publish_draft, publish_status, publish_trip,
  cancel_status, cancel_trip,
}

module _ (B : Backend) (T : TripLaws B.trips) (id : TripId) (w : World B) where
  canceled-Effect :
      (t : Trip) (s : TripStatus)
      → B.trips.get_by_id id w.trips ≡ ok t
      → t.status ≡ s
      → Effect B id w (cancel_status B s t w).1
  unfolding cancel_status
  canceled-Effect t canceled found e = inl refl
  canceled-Effect t (other_status s) found e = inl refl
  canceled-Effect t draft found e =
      save_and_show-Effect B T w id t (record t { status = canceled }) found
        (record {
          same_id = refl;
          same_creator = refl;
          same_creation = refl;
          status_allowed = rw e drops;
          still_organized = λ h. h;
        })
  canceled-Effect t published found e =
      save_and_show-Effect B T w id t (record t { status = canceled }) found
        (record {
          same_id = refl;
          same_creator = refl;
          same_creation = refl;
          status_allowed = rw e cancels;
          still_organized = λ h. h;
        })

  pub cancel_trip-Effect : (caller : MemberId) → Effect B id w (cancel_trip B caller id w).1
  unfolding cancel_trip
  cancel_trip-Effect caller = elim (Result-cases (load_organized_trip B caller id w)) [
    | inr (x, refused) ↦ rw refused (inl refl)
    | inl (t, loaded) ↦
        rw loaded
          (canceled-Effect t t.status (load_organized_trip-ok B caller id w t loaded).0 refl)
  ]

  abbrev published_trip : Trip → Trip
  published_trip t = record t {
    status = published;
    attending_rigs = zero_if_unset t.attending_rigs;
  }

  -- A draft is refused without a write, or saved as published when nothing is missing.
  publish_draft-cases :
      (t : Trip)
      → ((publish_draft B t w).1 ≡ w)
        ⊎ ((is_public t.draft_visibility ≡ true)
            × (required_publish_fields_missing t ≡ [])
            × ((publish_draft B t w).1 ≡ (save_and_show B (published_trip t) w).1))
  unfolding publish_draft
  publish_draft-cases t = ground arith

  publish_draft-Effect :
      (t : Trip)
      → B.trips.get_by_id id w.trips ≡ ok t
      → t.status ≡ draft
      → Effect B id w (publish_draft B t w).1
  publish_draft-Effect t found e = elim (publish_draft-cases t) [
    | inl same ↦ rw same (inl refl)
    | inr (_, _, saved) ↦ rw saved (
        save_and_show-Effect B T w id t (published_trip t) found (record {
          same_id = refl;
          same_creator = refl;
          same_creation = refl;
          status_allowed = rw e publishes;
          still_organized = λ h. h;
        }))
  ]

  publish_status-Effect :
      (t : Trip) (s : TripStatus)
      → B.trips.get_by_id id w.trips ≡ ok t
      → t.status ≡ s
      → Effect B id w (publish_status B s t w).1
  unfolding publish_status
  publish_status-Effect t draft found e = publish_draft-Effect t found e
  publish_status-Effect t published found e = inl (ground arith)
  publish_status-Effect t canceled found e = inl refl
  publish_status-Effect t (other_status s) found e = inl refl

  pub publish_trip-Effect : (caller : MemberId) → Effect B id w (publish_trip B caller id w).1
  unfolding publish_trip
  publish_trip-Effect caller = elim (Result-cases (load_organized_trip B caller id w)) [
    | inr (x, refused) ↦ rw refused (inl refl)
    | inl (t, loaded) ↦
        rw loaded
          (publish_status-Effect t t.status (load_organized_trip-ok B caller id w t loaded).0 refl)
  ]

module _ (B : Backend) (caller : MemberId) (id : TripId) (w : World B) (e : Failure) where
  pub publishing_refused :
      load_organized_trip B caller id w ≡ err e
      → (publish_trip B caller id w ≡ (err e, w)) × (cancel_trip B caller id w ≡ (err e, w))
  unfolding publish_trip cancel_trip
  publishing_refused h = (rw h refl, rw h refl)
