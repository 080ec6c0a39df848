-- ===== src/Trips/History.antt =====
-- Histories: any sequence of calls of the trip service that change state, by any callers, each of
-- which may fail at any point.
use eastbay_overland_rally_p.Prelude.{
  ◌≡◌, refl, sym, ◌∙◌, inl, inr, List, [], ◌∷◌, arith, Bool-cases, ◌==◌, string_eq, eq_iff,
  if◌then◌else◌,
}
use mathlib.Core.Path.{subst}
use eastbay_overland_rally_p.Domain.{
  Trip, TripId, MemberId, DraftVisibility, RsvpResponse, TripStatus, canceled,
}
use eastbay_overland_rally_p.Ports.{ok}
use eastbay_overland_rally_p.Ports.Laws.{TripLaws}
use eastbay_overland_rally_p.Service.{Backend, World}
use eastbay_overland_rally_p.Trips.Types.{CreateTripDraftInput, UpdateTripInput}
use eastbay_overland_rally_p.Trips.Evolution.{
  Allowed, stays, publishes, drops, cancels, Evolves, Effect,
}
use eastbay_overland_rally_p.Trips.Drafts.{
  create_trip_draft, update_trip, set_trip_draft_visibility, new_draft,
}
use eastbay_overland_rally_p.Trips.Drafts.Effects.{
  Creates, create_trip_draft-Creates, update_trip-Effect, set_trip_draft_visibility-Effect,
}
use eastbay_overland_rally_p.Trips.Organizers.{add_trip_organizer, remove_trip_organizer}
use eastbay_overland_rally_p.Trips.Organizers.Membership.{
  add_trip_organizer-Effect, remove_trip_organizer-Effect,
}
use eastbay_overland_rally_p.Trips.Publishing.{publish_trip, cancel_trip}
use eastbay_overland_rally_p.Trips.Publishing.Effects.{publish_trip-Effect, cancel_trip-Effect}
use eastbay_overland_rally_p.Trips.Rsvps.{set_my_rsvp}
use eastbay_overland_rally_p.Trips.Rsvps.Effects.{set_my_rsvp-Effect}

pub data Call : Type 0 where
  creates : CreateTripDraftInput → Call
  updates : TripId → UpdateTripInput → Call
  sets_visibility : TripId → DraftVisibility → Call
  adds_organizer removes_organizer : TripId → MemberId → Call
  cancels_trip publishes_trip : TripId → Call
  sets_rsvp : TripId → RsvpResponse → Call

Allowed-trans : {a b c : TripStatus} → Allowed a b → Allowed b c → Allowed a c
Allowed-trans (stays s) q = q
Allowed-trans publishes (stays s) = publishes
Allowed-trans publishes cancels = drops
Allowed-trans drops (stays s) = drops
Allowed-trans cancels (stays s) = cancels

pub canceled_final : {a b : TripStatus} → Allowed a b → a ≡ canceled → b ≡ canceled
canceled_final (stays s) e = e
canceled_final publishes e = cc
canceled_final drops e = refl
canceled_final cancels e = refl

Evolves-refl : (t : Trip) → Evolves t t
Evolves-refl t = record {
  same_id = refl;
  same_creator = refl;
  same_creation = refl;
  status_allowed = stays t.status;
  still_organized = λ h. h;
}

Evolves-trans : {t u v : Trip} → Evolves t u → Evolves u v → Evolves t v
Evolves-trans p q = record {
  same_id = q.same_id ∙ p.same_id;
  same_creator = q.same_creator ∙ p.same_creator;
  same_creation = q.same_creation ∙ p.same_creation;
  status_allowed = Allowed-trans p.status_allowed q.status_allowed;
  still_organized = λ h. q.still_organized (p.still_organized h);
}

same_trip : {t u : Trip} → ok t ≡ ok u → t ≡ u
same_trip h = cc

Evolves-same : {t u v : Trip} → Evolves t v → t ≡ u → Evolves u v
Evolves-same {v = v} e h = subst (λ x. Evolves x v) h e

module _ (B : Backend) where
  -- the world after a call, whatever it returns
  unfoldable pub call : World B → MemberId × Call → World B
  call w (caller, creates input) = (create_trip_draft B caller input w).1
  call w (caller, updates id p) = (update_trip B caller id p w).1
  call w (caller, sets_visibility id dv) = (set_trip_draft_visibility B caller id dv w).1
  call w (caller, adds_organizer id m) = (add_trip_organizer B caller id m w).1
  call w (caller, removes_organizer id m) = (remove_trip_organizer B caller id m w).1
  call w (caller, cancels_trip id) = (cancel_trip B caller id w).1
  call w (caller, publishes_trip id) = (publish_trip B caller id w).1
  call w (caller, sets_rsvp id r) = (set_my_rsvp B caller id r w).1

  pub calls : World B → List (MemberId × Call) → World B
  calls w [] = w
  calls w (c ∷ cs) = calls (call w c) cs

  -- Every trip that is read under an identifier carries it.
  abbrev pub IsKeyed : World B → Type 0
  IsKeyed w = (id : TripId) (t : Trip) → B.trips.get_by_id id w.trips ≡ ok t → t.id ≡ id

  -- What one world keeps of another: keys, and every trip in a later stage of its life.
  pub record Follows (w w' : World B) : Type 0 where
    pub keyed : IsKeyed w'
    pub evolves :
        (id : TripId) (t : Trip)
        → B.trips.get_by_id id w.trips ≡ ok t
        → (v : Trip) × (B.trips.get_by_id id w'.trips ≡ ok v) × Evolves t v

  pub Follows-refl : (w w' : World B) → IsKeyed w → w'.trips ≡ w.trips → Follows w w'
  Follows-refl w w' k e = record {
    keyed = rw e k;
    evolves = rw e (λ id t h. (t, h, Evolves-refl t));
  }

  pub Follows-trans : (u v w : World B) → Follows u v → Follows v w → Follows u w
  Follows-trans u v w p q = record {
    keyed = q.keyed;
    evolves = λ id t h.
        let (t', h', e) = p.evolves id t h in
        let (t'', h'', e') = q.evolves id t' h' in (t'', h'', Evolves-trans e e');
  }

module _ (B : Backend) (T : TripLaws B.trips) (w : World B) (k : IsKeyed B w) where
  -- a write under the key of `v` that leaves the other keys alone
  abbrev Writes : World B → Trip → Type 0
  Writes w' v =
      (id : TripId)
      → B.trips.get_by_id id w'.trips ≡ (if v.id == id then ok v else B.trips.get_by_id id w.trips)

  Writes-IsKeyed : (w' : World B) (v : Trip) → Writes w' v → IsKeyed B w'
  Writes-IsKeyed w' v ws id t h = ground (arith, ws id, eq_iff v.id id, k id t)

  Writes-Follows :
      (w' : World B) (v : Trip)
      → Writes w' v
      → ((t : Trip) → B.trips.get_by_id v.id w.trips ≡ ok t → Evolves t v)
      → Follows B w w'
  Writes-Follows w' v ws ev = record {
    keyed = Writes-IsKeyed w' v ws;
    evolves = λ id t h. elim (Bool-cases (v.id == id)) [
      | inl here ↦ let e = (eq_iff v.id id).0 here in (v, ws id ∙ rw here refl, ev t (rw e h))
      | inr other ↦ (t, ws id ∙ rw other h, Evolves-refl t)
    ];
  }

  Effect-Follows : (id : TripId) (w' : World B) → Effect B id w w' → Follows B w w'
  Effect-Follows id w' (inl same) = Follows-refl B w w' k same
  Effect-Follows id w' (inr (t, v, found, e, (saved, after))) =
      Writes-Follows w' v (λ j. rw after (T.get-save v w.trips j saved))
        λ u h. Evolves-same e (same_trip (sym found ∙ rw (e.same_id ∙ k id t found) at h))

  Creates-Follows : (caller : MemberId) (w' : World B) → Creates B caller w w' → Follows B w w'
  Creates-Follows caller w' (inl same) = Follows-refl B w w' k same
  Creates-Follows caller w' (inr (name, at, made, after)) =
      let v = new_draft (B.new_trip_id w.minted) caller name at in
      Writes-Follows w' v (λ j. rw after (T.get-create v w.trips j made).1)
        λ u h. absurd (ground (arith, T.get-create v w.trips v.id made, h))

  -- One call keeps every stored trip, in the same or a later stage of its life.
  pub call-Follows : (c : MemberId × Call) → Follows B w (call B w c)
  unfolding call
  call-Follows (caller, creates input) =
      Creates-Follows caller _ (create_trip_draft-Creates B T caller w input)
  call-Follows (caller, updates id p) = Effect-Follows id _ (update_trip-Effect B T id w caller p)
  call-Follows (caller, sets_visibility id dv) =
      Effect-Follows id _ (set_trip_draft_visibility-Effect B T id w caller dv)
  call-Follows (caller, adds_organizer id m) =
      Effect-Follows id _ (add_trip_organizer-Effect B T caller id m w)
  call-Follows (caller, removes_organizer id m) =
      Effect-Follows id _ (remove_trip_organizer-Effect B T caller id m w)
  call-Follows (caller, cancels_trip id) = Effect-Follows id _ (cancel_trip-Effect B T id w caller)
  call-Follows (caller, publishes_trip id) =
      Effect-Follows id _ (publish_trip-Effect B T id w caller)
  call-Follows (caller, sets_rsvp id r) = Effect-Follows id _ (set_my_rsvp-Effect B T caller id r w)

-- If every trip that is read carries the identifier it is read under, then after any history of calls,
-- successful or not, every trip is still stored under its identifier, with
-- the same creator and time of creation, with an organizer if it had one, and with a status that
-- only moved from draft to published or canceled and from published to canceled.
pub calls-Follows :
    (B : Backend) (T : TripLaws B.trips) (w : World B) (cs : List (MemberId × Call))
    → IsKeyed B w
    → Follows B w (calls B w cs)
unfolding calls
calls-Follows B T w [] k = Follows-refl B w w k refl
calls-Follows B T w (c ∷ cs) k =
    let f = call-Follows B T w k c in
    Follows-trans B w (call B w c) _ f (calls-Follows B T (call B w c) cs f.keyed)
