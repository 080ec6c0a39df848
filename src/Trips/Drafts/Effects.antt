-- ===== src/Trips/Drafts/Effects.antt =====
-- What UpdateTrip, SetTripDraftVisibility and CreateTripDraft do to the store.
use eastbay_overland_rally_p.Prelude.{
  ◌≡◌, refl, ◌⊎◌, inl, inr, String, arith, Bool-cases, ◌==◌, string_eq,
}
use eastbay_overland_rally_p.Text.{normalize_human_name}
use eastbay_overland_rally_p.Domain.{Trip, TripId, MemberId, DraftVisibility, is_draft, Time, utc}
use eastbay_overland_rally_p.Ports.{ok, err, Failure, Result-cases}
use eastbay_overland_rally_p.Ports.Laws.{TripLaws}
use eastbay_overland_rally_p.Service.{Backend, World}
use eastbay_overland_rally_p.Trips.Types.{UpdateTripInput, CreateTripDraftInput}
use eastbay_overland_rally_p.Trips.Access.{load_trip, load_visible_trip}
use eastbay_overland_rally_p.Trips.Access.Guards.{load_trip-ok, load_visible_trip-ok}
use eastbay_overland_rally_p.Trips.Patch.{authorize_update, patch_trip}
use eastbay_overland_rally_p.Trips.Patch.Bounds.{SameCore, patch_trip-SameCore}
use eastbay_overland_rally_p.Trips.Evolution.{stays, Evolves, Effect, stamped, save_and_show-Effect}
use eastbay_overland_rally_p.Trips.Drafts.{
  known_visibility, or_unknown_caller, new_draft, create_trip_draft, update_trip,
  set_trip_draft_visibility,
}

module _ (B : Backend) (T : TripLaws B.trips) (id : TripId) (w : World B) where
  SameCore-Evolves : (t v : Trip) → SameCore t v → Evolves t (stamped B T w v)
  SameCore-Evolves t v (i, c, a, s, o) = record {
    same_id = i;
    same_creator = c;
    same_creation = a;
    status_allowed = rw s (stays t.status);
    still_organized = rw o (λ h. h);
  }

  pub update_trip-Effect :
      (caller : MemberId) (p : UpdateTripInput) → Effect B id w (update_trip B caller id p w).1
  unfolding update_trip
  update_trip-Effect caller p = elim (Result-cases (load_trip B id w)) [
    | inr (x, missing) ↦ rw missing (inl refl)
    | inl (t, loaded) ↦ rw loaded (elim (Result-cases (authorize_update t caller)) [
      | inr (x, refused) ↦ rw refused (inl refl)
      | inl (u, authorized) ↦ rw authorized (elim (Result-cases (patch_trip p t)) [
        | inr (x, invalid) ↦ rw invalid (inl refl)
        | inl (v, patched) ↦ rw patched (
            save_and_show-Effect B T w id t v (load_trip-ok B caller id w t loaded)
              (SameCore-Evolves t v (patch_trip-SameCore p t v patched)))
      ])
    ])
  ]

  pub set_trip_draft_visibility-Effect :
      (caller : MemberId) (dv : DraftVisibility)
      → Effect B id w (set_trip_draft_visibility B caller id dv w).1
  unfolding set_trip_draft_visibility
  set_trip_draft_visibility-Effect caller dv =
      elim (Result-cases (load_visible_trip B caller id w)) [
        | inr (x, hidden) ↦ rw hidden (inl refl)
        | inl (t, seen) ↦ rw seen (elim (Bool-cases (is_draft t.status)) [
          | inr late ↦ rw late (inl refl)
          | inl early ↦ rw early (elim (Bool-cases (t.creator_member_id == caller)) [
            | inr other ↦ rw other (inl refl)
            | inl own ↦ rw own (elim (Result-cases (known_visibility dv)) [
              | inr (x, unknown) ↦ rw unknown (inl refl)
              | inl (v, known) ↦ rw known (
                  save_and_show-Effect B T w id t (record t { draft_visibility = v })
                    (load_visible_trip-ok B caller id w t seen).0
                    (SameCore-Evolves t (record t { draft_visibility = v })
                      (refl, refl, refl, refl, refl)))
            ])
          ])
        ])
      ]

-- CreateTripDraft adds no trip, or one private draft with a new identifier, organized by the caller.
abbrev pub Creates : (B : Backend) → MemberId → World B → World B → Type 0
Creates B caller w w' =
    (w'.trips ≡ w.trips)
    ⊎ ((name : String) × (at : Time) × ((B.trips.create
            (new_draft (B.new_trip_id w.minted) caller name at) w.trips).0
          ≡ ok tt)
        × (w'.trips
            ≡ (B.trips.create (new_draft (B.new_trip_id w.minted) caller name at) w.trips).1))

module _ (B : Backend) (T : TripLaws B.trips) (caller : MemberId) (w : World B) where
  pub create_trip_draft-Creates :
      (input : CreateTripDraftInput) → Creates B caller w (create_trip_draft B caller input w).1
  unfolding create_trip_draft
  create_trip_draft-Creates input =
      let name = normalize_human_name input.name in
      let at = utc (B.now w.readings) in
      let t = new_draft (B.new_trip_id w.minted) caller name at in
      elim (Result-cases (or_unknown_caller (B.members.get_by_id caller w.members))) [
        | inr (x, unknown) ↦ rw unknown (inl refl)
        | inl (m, known) ↦ rw known (elim (Bool-cases (name == "")) [
          | inl empty ↦ rw empty (inl refl)
          | inr full ↦ rw full (elim (Result-cases (B.trips.create t w.trips).0) [
            | inl (u, made) ↦ inr (name, at, ground arith, ground arith)
            | inr (x, failed) ↦ inl (ground (arith, T.create_error t w.trips x failed))
          ])
        ])
      ]

module _ (B : Backend) (caller : MemberId) (id : TripId) (w : World B) (e : Failure) where
  pub set_trip_draft_visibility_refused :
      (dv : DraftVisibility)
      → load_visible_trip B caller id w ≡ err e
      → set_trip_draft_visibility B caller id dv w ≡ (err e, w)
  unfolding set_trip_draft_visibility
  set_trip_draft_visibility_refused dv h = rw h refl

  pub update_trip_missing :
      (p : UpdateTripInput) → load_trip B id w ≡ err e → update_trip B caller id p w ≡ (err e, w)
  unfolding update_trip
  update_trip_missing p h = rw h refl

  pub update_trip_refused :
      (p : UpdateTripInput) (t : Trip)
      → load_trip B id w ≡ ok t
      → authorize_update t caller ≡ err e
      → update_trip B caller id p w ≡ (err e, w)
  unfolding update_trip
  update_trip_refused p t h a = rw h (rw a refl)
