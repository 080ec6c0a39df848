-- ===== src/Trips/Evolution.antt =====
-- How one call of the trip service may change the store of trips: not at all, or by one save of a
-- trip that it has read, changed as the relation `Evolves` allows.
use eastbay_overland_rally_p.Prelude.{◌≡◌, ◌≢◌, ◌⊎◌, inl, inr, [], arith}
use eastbay_overland_rally_p.Domain.{
  Trip, TripId, TripStatus, draft, published, canceled, TripDetails, utc,
}
use eastbay_overland_rally_p.Ports.{ok, Result-cases}
use eastbay_overland_rally_p.Ports.Laws.{TripLaws}
use eastbay_overland_rally_p.Service.{Backend, World}
use eastbay_overland_rally_p.Trips.Saving.{save_and_show}

-- The life of a trip: a draft may be published or canceled, a published trip may be canceled.
pub data Allowed : TripStatus → TripStatus → Type 0 where
  stays : (s : TripStatus) → Allowed s s
  publishes : Allowed draft published
  drops : Allowed draft canceled
  cancels : Allowed published canceled

pub record Evolves (t v : Trip) : Type 0 where
  pub same_id : v.id ≡ t.id
  pub same_creator : v.creator_member_id ≡ t.creator_member_id
  pub same_creation : v.created_at ≡ t.created_at
  pub status_allowed : Allowed t.status v.status
  pub still_organized : t.organizer_member_ids ≢ [] → v.organizer_member_ids ≢ []

module _ (B : Backend) where
  abbrev pub Saves : World B → World B → Trip → Type 0
  Saves w w' v = ((B.trips.save v w.trips).0 ≡ ok tt) × (w'.trips ≡ (B.trips.save v w.trips).1)

  abbrev pub Effect : TripId → World B → World B → Type 0
  Effect id w w' =
      (w'.trips ≡ w.trips)
      ⊎ ((t : Trip) × (v : Trip) × (B.trips.get_by_id id w.trips ≡ ok t)
          × Evolves t v
          × Saves w w' v)

module _ (B : Backend) (T : TripLaws B.trips) (w : World B) where
  -- the trip with the time of the save
  abbrev pub stamped : Trip → Trip
  stamped t = record t { updated_at = utc (B.now w.readings) }

  -- What save_and_show saves, whether the reply can be made or not.
  pub save_and_show-Saves :
      (t : Trip)
      → ((save_and_show B t w).1.trips ≡ w.trips) ⊎ Saves B w (save_and_show B t w).1 (stamped t)
  save_and_show-Saves t = elim (Result-cases (B.trips.save (stamped t) w.trips).0) [
    | inl (u, saved) ↦ inr (ground arith, ground arith)
    | inr (x, failed) ↦ inl (ground (arith, T.save_error (stamped t) w.trips x failed))
  ]

  -- A call that ends with a reply has saved.
  pub save_and_show-ok :
      (t : Trip) (d : TripDetails)
      → (save_and_show B t w).0 ≡ ok d
      → Saves B w (save_and_show B t w).1 (stamped t)
  save_and_show-ok t d h = elim (Result-cases (B.trips.save (stamped t) w.trips).0) [
    | inl (u, saved) ↦ (ground arith, ground arith)
    | inr (x, failed) ↦ absurd (ground arith)
  ]

  pub save_and_show-Effect :
      (id : TripId) (t v : Trip)
      → B.trips.get_by_id id w.trips ≡ ok t
      → Evolves t (stamped v)
      → Effect B id w (save_and_show B v w).1
  save_and_show-Effect id t v found e = elim (save_and_show-Saves v) [
    | inl same ↦ inl same
    | inr saves ↦ inr (t, stamped v, found, e, saves)
  ]
