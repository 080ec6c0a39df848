-- ===== src/Trips/Patch/Artifacts.antt =====
-- What reorderArtifactsByID returns.
use Prim.Native.String.{String}
use mathlib.Core.Path.{ap₂, subst}
use eastbay_overland_rally_p.Prelude.{
  ◌≡◌, refl, sym, List, [], ◌∷◌, map, Option, none, some, arith, All, ◌==◌, string_eq, eq_iff, inl,
  inr, Option-cases, if◌then◌else◌,
}
use eastbay_overland_rally_p.Prelude.Assoc.{Assoc, lookup, insert, lookup-insert}
use eastbay_overland_rally_p.Domain.{TripArtifact}
use eastbay_overland_rally_p.Ports.{ok, Result-cases}
use eastbay_overland_rally_p.Trips.Patch.{index_artifacts, pick_artifacts, reorder_artifacts_by_id}

-- the last artifact with the identifier
abbrev pub last_artifact : String → List TripArtifact → Option TripArtifact
last_artifact id [] = none
last_artifact id (a ∷ l) = elim (last_artifact id l) [
  | some b ↦ some b
  | none ↦ if a.artifact_id == id then some a else none
]

abbrev or_else : {A : Type 0} → Option A → Option A → Option A
or_else (some a) o = some a
or_else none o = o

lookup-index_artifacts :
    (id : String) (l : List TripArtifact) (m : Assoc String TripArtifact)
    → lookup id (index_artifacts m l) ≡ or_else (last_artifact id l) (lookup id m)
unfolding index_artifacts
lookup-index_artifacts id [] m = refl
lookup-index_artifacts id (a ∷ l) m = ground (
  arith,
  lookup-index_artifacts id l (insert a.artifact_id a m),
  lookup-insert a.artifact_id id a m,
)

lookup-index :
    (id : String) (l : List TripArtifact) → lookup id (index_artifacts [] l) ≡ last_artifact id l
unfolding lookup
lookup-index id l = ground (arith, lookup-index_artifacts id l [])

-- the artifact is the last of the list with its identifier
abbrev pub IsLast : List TripArtifact → TripArtifact → Type 0
IsLast existing a = last_artifact a.artifact_id existing ≡ some a

last_artifact-id :
    (id : String) (l : List TripArtifact) (a : TripArtifact)
    → last_artifact id l ≡ some a
    → a.artifact_id ≡ id
last_artifact-id id [] a h = cc
last_artifact-id id (b ∷ l) a h = elim (Option-cases (last_artifact id l)) [
  | inl e ↦ ground (arith, eq_iff b.artifact_id id)
  | inr (c, e) ↦ last_artifact-id id l a (ground arith)
]

abbrev Picked : List TripArtifact → List String → List TripArtifact → Type 0
Picked existing ids out = (map (λ a. a.artifact_id) out ≡ ids) × All (IsLast existing) out

Picked-cons :
    (existing : List TripArtifact) (id : String) (ids : List String) (a : TripArtifact)
    (out : List TripArtifact)
    → last_artifact id existing ≡ some a
    → Picked existing ids out
    → Picked existing (id ∷ ids) (a ∷ out)
Picked-cons existing id ids a out e (same, last) =
    let i = last_artifact-id id existing a e in
    (ap₂ ◌∷◌ i same, (subst (λ j. last_artifact j existing ≡ some a) (sym i) e, last))

pick-Picked :
    (existing : List TripArtifact) (ids : List String) (out : List TripArtifact)
    → pick_artifacts (index_artifacts [] existing) ids ≡ ok out
    → Picked existing ids out
unfolding pick_artifacts
pick-Picked existing [] out h = let e : [] ≡ out = cc in rw (← e) (refl, tt)
pick-Picked existing (id ∷ ids) out h =
    elim (Option-cases (lookup id (index_artifacts [] existing))) [
      | inl e ↦ absurd (ground arith)
      | inr (a, e) ↦ elim (Result-cases (pick_artifacts (index_artifacts [] existing) ids)) [
        | inr (x, f) ↦ absurd (ground arith)
        | inl (rest, f) ↦
            let whole : a ∷ rest ≡ out = ground arith in
            rw (← whole) (
              Picked-cons existing id ids a rest (ground (arith, lookup-index id existing))
                (pick-Picked existing ids rest f))
      ]
    ]

-- A successful reordering lists, for each identifier in turn, the last artifact that has it; so it may
-- leave artifacts out and may repeat them.
pub reorder_artifacts_by_id-ok :
    (existing : List TripArtifact) (ids : List String) (out : List TripArtifact)
    → reorder_artifacts_by_id existing ids ≡ ok out
    → (map (λ a. a.artifact_id) out ≡ ids) × All (IsLast existing) out
unfolding reorder_artifacts_by_id
reorder_artifacts_by_id-ok existing ids out h = pick-Picked existing ids out h

-- the identifier is that of some artifact
abbrev pub IsKnown : List TripArtifact → String → Type 0
IsKnown existing id = (a : TripArtifact) × (last_artifact id existing ≡ some a)

pick-total :
    (existing : List TripArtifact) (ids : List String)
    → All (IsKnown existing) ids
    → (out : List TripArtifact) × (pick_artifacts (index_artifacts [] existing) ids ≡ ok out)
unfolding pick_artifacts
pick-total existing [] h = ([], refl)
pick-total existing (id ∷ ids) ((a, e), h) =
    let (rest, f) = pick-total existing ids h in
    (a ∷ rest, rw (lookup-index id existing) (rw e (rw f refl)))

-- A reordering by identifiers of artifacts of the trip succeeds.
pub reorder_artifacts_by_id_total :
    (existing : List TripArtifact) (ids : List String)
    → All (IsKnown existing) ids
    → (out : List TripArtifact) × (reorder_artifacts_by_id existing ids ≡ ok out)
unfolding reorder_artifacts_by_id
reorder_artifacts_by_id_total existing ids h = pick-total existing ids h
