-- ===== src/Trips/Publishing/Announced.antt =====
-- What a successful PublishTrip and a successful CancelTrip have done.
use eastbay_overland_rally_p.Prelude.{String, ◌≡◌, refl, ◌⊎◌, inl, inr, true, arith}
use eastbay_overland_rally_p.Domain.{
  Trip, TripId, MemberId, TripDetails, TripStatus, draft, published, canceled, other_status,
  is_public, utc,
}
use eastbay_overland_rally_p.Ports.{ok, Result-cases}
use eastbay_overland_rally_p.Service.{Backend, World}
use eastbay_overland_rally_p.Trips.Access.{load_organized_trip}
use eastbay_overland_rally_p.Trips.Publishing.{
  announcement_copy_from_trip, publish_draft, publish_status, publish_trip, zero_if_unset,
}
use eastbay_overland_rally_p.Trips.Publishing.Readiness.{
  IsReady, required_publish_fields_missing_iff,
}

module _ (B : Backend) (caller : MemberId) (id : TripId) (w : World B) where
  -- the published trip that is saved
  abbrev pub published_version : Trip → Trip
  published_version t = record t {
    status = published;
    attending_rigs = zero_if_unset t.attending_rigs;
    updated_at = utc (B.now w.readings);
  }

  -- the draft was public and ready, and its published version is saved
  pub record Published (t : Trip) (w' : World B) : Type 0 where
    pub early : t.status ≡ draft
    pub shared : is_public t.draft_visibility ≡ true
    pub ready : IsReady t
    pub saved : (B.trips.save (published_version t) w.trips).0 ≡ ok tt
    pub stored : w'.trips ≡ (B.trips.save (published_version t) w.trips).1

  abbrev pub Announced : Trip → TripDetails → String → World B → Type 0
  Announced t d copy w' =
      (copy ≡ announcement_copy_from_trip d)
      × (((t.status ≡ published) × (w' ≡ w)) ⊎ Published t w')

  publish_draft-ok :
      (t : Trip) (d : TripDetails) (copy : String)
      → t.status ≡ draft
      → (publish_draft B t w).0 ≡ ok (d, copy)
      → Announced t d copy (publish_draft B t w).1
  unfolding publish_draft
  publish_draft-ok t d copy e h = (
    ground arith,
    inr (record {
      early = e;
      shared = ground arith;
      ready = (required_publish_fields_missing_iff t).0 (ground arith);
      saved = ground arith;
      stored = ground arith;
    }),
  )

  publish_status-ok :
      (t : Trip) (s : TripStatus) (d : TripDetails) (copy : String)
      → t.status ≡ s
      → (publish_status B s t w).0 ≡ ok (d, copy)
      → Announced t d copy (publish_status B s t w).1
  unfolding publish_status
  publish_status-ok t draft d copy e h = publish_draft-ok t d copy e h
  publish_status-ok t published d copy e h = (ground arith, inl (e, ground arith))
  publish_status-ok t canceled d copy e h = cc
  publish_status-ok t (other_status s) d copy e h = cc

  -- A successful PublishTrip was called by an organizer who may see the trip, returns the announcement
  -- made from the details that it returns, and either found the trip published and changed nothing,
  -- or found a public draft with all that it needs and saved it as published.
  pub publish_trip-ok :
      (d : TripDetails) (copy : String)
      → (publish_trip B caller id w).0 ≡ ok (d, copy)
      → (t : Trip) × (load_organized_trip B caller id w ≡ ok t)
        × Announced t d copy (publish_trip B caller id w).1
  unfolding publish_trip
  publish_trip-ok d copy h = elim (Result-cases (load_organized_trip B caller id w)) [
    | inr (x, refused) ↦ absurd (ground arith)
    | inl (t, loaded) ↦
        (t, loaded, rw loaded (publish_status-ok t t.status d copy refl (rw loaded at h)))
  ]
