-- ===== src/Trips/Drafts/Updated.antt =====
-- What a successful UpdateTrip has done.
use eastbay_overland_rally_p.Prelude.{◌≡◌, ◌∙◌, inl, inr, arith, string_eq, eq_iff}
use eastbay_overland_rally_p.Domain.{Trip, TripId, MemberId, TripDetails}
use eastbay_overland_rally_p.Ports.{ok, Result-cases}
use eastbay_overland_rally_p.Ports.Laws.{TripLaws}
use eastbay_overland_rally_p.Service.{Backend, World}
use eastbay_overland_rally_p.Trips.Types.{UpdateTripInput}
use eastbay_overland_rally_p.Trips.Access.{load_trip}
use eastbay_overland_rally_p.Trips.Access.Guards.{load_trip-ok}
use eastbay_overland_rally_p.Trips.Saving.{save_and_show}
use eastbay_overland_rally_p.Trips.Evolution.{stamped, save_and_show-ok}
use eastbay_overland_rally_p.Trips.Patch.{authorize_update, patch_trip}
use eastbay_overland_rally_p.Trips.Patch.Authority.{MayUpdate, authorize_update_iff}
use eastbay_overland_rally_p.Trips.Patch.Bounds.{patch_trip-SameCore}
use eastbay_overland_rally_p.Trips.Drafts.{update_trip}

module _ (B : Backend) (T : TripLaws B.trips) (caller : MemberId) (id : TripId)
    (p : UpdateTripInput) (w : World B) where
  -- the caller was allowed to update the stored trip, and its patched version is stored in its place
  pub record Patched (w' : World B) : Type 0 where
    pub old : Trip
    pub new : Trip
    pub found : B.trips.get_by_id id w.trips ≡ ok old
    pub allowed : MayUpdate old caller
    pub applied : patch_trip p old ≡ ok new
    pub stored : B.trips.get_by_id id w'.trips ≡ ok (stamped B T w new)

  saved-Patched :
      (t v : Trip) (d : TripDetails)
      → t.id ≡ id
      → load_trip B id w ≡ ok t
      → authorize_update t caller ≡ ok tt
      → patch_trip p t ≡ ok v
      → (save_and_show B v w).0 ≡ ok d
      → Patched (save_and_show B v w).1
  saved-Patched t v d keyed loaded allowed patched done =
      let (saved, after) = save_and_show-ok B T w v d done in
      let same = patch_trip-SameCore p t v patched in
      record {
        old = t;
        new = v;
        found = load_trip-ok B caller id w t loaded;
        allowed = (authorize_update_iff t caller).0 allowed;
        applied = patched;
        stored = rw after (
            T.get-save (stamped B T w v) w.trips id saved
            ∙ ground (arith, eq_iff v.id id, same.0, keyed));
      }

  loaded-Patched :
      (t : Trip) (d : TripDetails)
      → t.id ≡ id
      → load_trip B id w ≡ ok t
      → (update_trip B caller id p w).0 ≡ ok d
      → Patched (update_trip B caller id p w).1
  unfolding update_trip
  loaded-Patched t d keyed loaded = rw loaded (elim (Result-cases (authorize_update t caller)) [
    | inr (x, refused) ↦ rw refused (λ h. absurd (ground arith))
    | inl (u, allowed) ↦ rw allowed (elim (Result-cases (patch_trip p t)) [
      | inr (x, invalid) ↦ rw invalid (λ h. absurd (ground arith))
      | inl (v, patched) ↦ rw patched (λ h. saved-Patched t v d keyed loaded allowed patched h)
    ])
  ])

  -- A successful UpdateTrip was called by a member who may update the trip stored under the identifier,
  -- and afterwards the patched trip, with the time of the save, is stored under it. The condition is
  -- that stored trips carry the identifier they are stored under.
  pub update_trip-Patched :
      (d : TripDetails)
      → ((t : Trip) → B.trips.get_by_id id w.trips ≡ ok t → t.id ≡ id)
      → (update_trip B caller id p w).0 ≡ ok d
      → Patched (update_trip B caller id p w).1
  update_trip-Patched d keyed h = elim (Result-cases (load_trip B id w)) [
    | inr (x, missing) ↦ absurd (unfold update_trip in ground arith)
    | inl (t, loaded) ↦ loaded-Patched t d (keyed t (load_trip-ok B caller id w t loaded)) loaded h
  ]
