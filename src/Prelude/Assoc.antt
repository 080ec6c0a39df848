-- ===== src/Prelude/Assoc.antt =====
-- The map of Go as an association list: a read finds the first entry of its key, a write replaces
-- that entry or adds one at the end. The order of a `range` over a map is left open by Go; the
-- model takes the order of the list.
use eastbay_overland_rally_p.Prelude.Tests.{
  inl, inr, Bool-cases, Eq, ◌==◌, if◌then◌else◌, ◌≡◌, refl, arith,
}
use eastbay_overland_rally_p.Prelude.Lists.{Mem}
use mathlib.Core.List.{List, [], ◌∷◌, map}
use mathlib.Core.Option.{Option, none, some}

abbrev pub Assoc {ℓ} : Type ℓ → Type ℓ → Type ℓ
Assoc K V = List (K × V)

module _ {ℓ} {K V : Type ℓ} ⦃e : Eq K⦄ where
  -- v, ok := m[k]
  unfoldable pub lookup : K → Assoc K V → Option V
  lookup k [] = none
  lookup k ((key, value) ∷ rest) = if key == k then some value else lookup k rest

  -- m[k] = v
  unfoldable pub insert : K → V → Assoc K V → Assoc K V
  insert k v [] = (k, v) ∷ []
  insert k v ((key, value) ∷ rest) =
      if key == k then (k, v) ∷ rest else (key, value) ∷ insert k v rest

  -- A read after a write: the written value under the written key, and the old reading elsewhere.
  pub lookup-insert :
      (written read : K) (v : V) (m : Assoc K V)
      → lookup read (insert written v m) ≡ (if written == read then some v else lookup read m)
  unfolding lookup insert
  lookup-insert written read v [] = refl
  lookup-insert written read v ((key, value) ∷ rest) = ground (
    arith,
    e.same_iff written read,
    e.same_iff key written,
    e.same_iff key read,
    lookup-insert written read v rest,
  )

-- for _, v := range m
abbrev pub values {ℓ} : {K V : Type ℓ} → Assoc K V → List V
values m = map (λ e. e.1) m

module _ {K V : Type 0} ⦃e : Eq K⦄ where
  -- A value that is read is one of the values.
  pub Mem-values : (k : K) (v : V) (m : Assoc K V) → lookup k m ≡ some v → Mem v (values m)
  unfolding lookup
  Mem-values k v [] h = cc
  Mem-values k v ((key, value) ∷ rest) h = elim (Bool-cases (key == k)) [
    | inl here ↦ inl (ground (arith, h))
    | inr there ↦ inr (Mem-values k v rest (ground arith))
  ]
