-- ===== src/Trips/Patch/Bounds.antt =====
-- What a patched trip keeps of the old one, and the bounds that the patch respects.
use eastbay_overland_rally_p.Prelude.{
  ℤ, pos, ◌≤ℤ◌, ◌≤◌, ◌≡◌, ◌≢◌, ◌⊎◌, Option, some, List, arith, inl, inr, ◌∙◌,
}
use eastbay_overland_rally_p.Domain.{Trip, Time, published}
use eastbay_overland_rally_p.Ports.{ok, Result-cases}
use eastbay_overland_rally_p.Trips.Types.{Optional, value, UpdateTripInput}
use eastbay_overland_rally_p.Trips.Patch.{
  apply_name, apply_capacity, apply_artifact_ids, check_dates, current_attendance, patch_trip,
  with_text_fields, with_meeting_location,
}

-- the fields that UpdateTrip does not touch
abbrev pub SameCore : Trip → Trip → Type 0
SameCore t v =
    (v.id ≡ t.id)
    × (v.creator_member_id ≡ t.creator_member_id)
    × (v.created_at ≡ t.created_at)
    × (v.status ≡ t.status)
    × (v.organizer_member_ids ≡ t.organizer_member_ids)

apply_name-SameCore : (o : Optional _) (t v : Trip) → apply_name o t ≡ ok v → SameCore t v
unfolding apply_name
apply_name-SameCore o t v h = ground arith

apply_capacity-SameCore : (o : Optional ℤ) (t v : Trip) → apply_capacity o t ≡ ok v → SameCore t v
unfolding apply_capacity
apply_capacity-SameCore o t v h = ground arith

apply_artifact_ids-SameCore :
    (o : Optional (List _)) (t v : Trip) → apply_artifact_ids o t ≡ ok v → SameCore t v
unfolding apply_artifact_ids
apply_artifact_ids-SameCore o t v h = ground arith

-- The stages of a patch that succeeds.
pub record Stages (p : UpdateTripInput) (t v : Trip) : Type 0 where
  pub named : Trip
  pub sized : Trip
  pub name : apply_name p.name t ≡ ok named
  pub size : apply_capacity p.capacity_rigs (with_text_fields p named) ≡ ok sized
  pub arrange : apply_artifact_ids p.artifact_ids (with_meeting_location p sized) ≡ ok v
  pub dates : check_dates v.start_date v.end_date ≡ ok tt

pub patch_trip-ok : (p : UpdateTripInput) (t v : Trip) → patch_trip p t ≡ ok v → Stages p t v
unfolding patch_trip
patch_trip-ok p t v h = elim (Result-cases (apply_name p.name t)) [
  | inr (x, e) ↦ absurd (ground arith)
  | inl (n, named) ↦ elim (Result-cases (apply_capacity p.capacity_rigs (with_text_fields p n))) [
    | inr (x, e) ↦ absurd (ground arith)
    | inl (s, sized) ↦
        elim (Result-cases (apply_artifact_ids p.artifact_ids (with_meeting_location p s))) [
          | inr (x, e) ↦ absurd (ground arith)
          | inl (a, arranged) ↦ record {
            named = n;
            sized = s;
            name = named;
            size = sized;
            arrange = ground arith;
            dates = ground arith;
          }
        ]
  ]
]

pub patch_trip-SameCore : (p : UpdateTripInput) (t v : Trip) → patch_trip p t ≡ ok v → SameCore t v
patch_trip-SameCore p t v h =
    let s = patch_trip-ok p t v h in
    ground (
      arith,
      apply_name-SameCore p.name t s.named s.name,
      apply_capacity-SameCore p.capacity_rigs (with_text_fields p s.named) s.sized s.size,
      apply_artifact_ids-SameCore p.artifact_ids (with_meeting_location p s.sized) v s.arrange,
    )

check_dates-ok :
    (start end : Option Time) (s e : Time)
    → check_dates start end ≡ ok tt
    → start ≡ some s
    → end ≡ some e
    → s.instant ≤ e.instant
unfolding check_dates
check_dates-ok start end s e h hs he = ground arith

apply_capacity-value :
    (o : Optional ℤ) (t v : Trip) (n : ℤ)
    → apply_capacity o t ≡ ok v
    → o ≡ value n
    → (v.capacity_rigs ≡ some n)
      × (pos 1 ≤ℤ n)
      × ((t.status ≢ published) ⊎ (current_attendance t.attending_rigs ≤ℤ n))
unfolding apply_capacity
apply_capacity-value o t v n h e = ground arith

apply_artifact_ids-capacity :
    (o : Optional (List _)) (t v : Trip)
    → apply_artifact_ids o t ≡ ok v
    → v.capacity_rigs ≡ t.capacity_rigs
unfolding apply_artifact_ids
apply_artifact_ids-capacity o t v h = ground arith

apply_name-counts :
    (o : Optional _) (t v : Trip)
    → apply_name o t ≡ ok v
    → (v.status ≡ t.status) × (v.attending_rigs ≡ t.attending_rigs)
unfolding apply_name
apply_name-counts o t v h = ground arith

-- A patch that succeeds leaves no end before its start.
pub patch_trip-dates :
    (p : UpdateTripInput) (t v : Trip) (s e : Time)
    → patch_trip p t ≡ ok v
    → v.start_date ≡ some s
    → v.end_date ≡ some e
    → s.instant ≤ e.instant
patch_trip-dates p t v s e h =
    let st = patch_trip-ok p t v h in check_dates-ok v.start_date v.end_date s e st.dates

-- What a stored capacity satisfies: it is at least 1, and on a published trip at least the attendance.
abbrev pub Holds : Trip → ℤ → Type 0
Holds t n = (pos 1 ≤ℤ n) × ((t.status ≢ published) ⊎ (current_attendance t.attending_rigs ≤ℤ n))

-- A patch with a capacity, if it succeeds, stores that capacity, which is at least 1, and on a
-- published trip at least the attendance.
pub patch_trip-capacity :
    (p : UpdateTripInput) (t v : Trip) (n : ℤ)
    → patch_trip p t ≡ ok v
    → p.capacity_rigs ≡ value n
    → (v.capacity_rigs ≡ some n) × Holds t n
patch_trip-capacity p t v n h set =
    let st = patch_trip-ok p t v h in
    let same = apply_name-counts p.name t st.named st.name in
    let (c, low, room) =
      apply_capacity-value p.capacity_rigs (with_text_fields p st.named) st.sized n st.size set in
    (
      apply_artifact_ids-capacity p.artifact_ids (with_meeting_location p st.sized) v st.arrange
          ∙ c,
      (low, rw (← same.0, ← same.1) room),
    )
