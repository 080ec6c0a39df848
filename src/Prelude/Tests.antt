-- ===== src/Prelude/Tests.antt =====
-- Boolean tests on numbers and texts, the conditional, and equality of keys as an interface.
use text.Mathlib.Text.{◌==◌ as str_eq}
use text.Mathlib.TextEquality.{eq_iff}
pub use Prim.Native.Nat.{ℕ, suc, ◌+◌, ◌-◌, ◌*◌, ◌≤◌, ◌<◌}
use Prim.Native.Nat.{compare, Ordering}
use Prim.Native.String.{String}
pub use mathlib.Core.Path.{◌≡◌, refl}
pub use mathlib.Core.Logic.{◌↔◌, ◌⊎◌, inl, inr}
pub use mathlib.Core.Bool.{Bool, true, false, ◌&&◌}
use mathlib.Core.Bool.{not}
use mathlib.Core.Option.{Option, none, some}
pub use native.Mathlib.Omega.{arith}

-- These compute to `compare`, which `ground` and `grind` read with no lemma listed.
abbrev pub ltb : ℕ → ℕ → Bool
ltb a b = elim (compare a b) [ Ordering.lt ↦ true | _ ↦ false ]

abbrev pub leb : ℕ → ℕ → Bool
leb a b = elim (compare a b) [ Ordering.gt ↦ false | _ ↦ true ]

abbrev pub same_nat : ℕ → ℕ → Bool
same_nat a b = elim (compare a b) [ Ordering.eq ↦ true | _ ↦ false ]

infix 1 if◌then◌else◌
abbrev pub if◌then◌else◌ {ℓ} : {A : Type ℓ} → Bool → A → A → A
if true then x else y = x
if false then x else y = y

pub same_nat_iff : (a b : ℕ) → (same_nat a b ≡ true) ↔ (a ≡ b)
same_nat_iff a b = ground arith

-- To split on a computed value and keep the equation.
pub Bool-cases : (b : Bool) → (b ≡ true) ⊎ (b ≡ false)
Bool-cases true = inl refl
Bool-cases false = inr refl

pub Option-cases {ℓ} : {A : Type ℓ} (o : Option A) → (o ≡ none) ⊎ ((a : A) × (o ≡ some a))
Option-cases none = inl refl
Option-cases (some a) = inr (a, refl)

pub not-true : (b : Bool) → not b ≡ true → b ≡ false
not-true b h = ground arith

-- The `==` of Go on the types that serve as keys.
pub record Eq {ℓ} (A : Type ℓ) : Type ℓ where
  pub same : A → A → Bool
  pub same_iff : (a b : A) → (same a b ≡ true) ↔ (a ≡ b)

abbrev same_pair {ℓ} : {A B : Type ℓ} (e : Eq A) (f : Eq B) → A × B → A × B → Bool
same_pair e f (a, b) (c, d) = e.same a c && f.same b d

pub same_pair_iff {ℓ} :
    {A B : Type ℓ} (e : Eq A) (f : Eq B) (p q : A × B) → (same_pair e f p q ≡ true) ↔ (p ≡ q)
same_pair_iff e f (a, b) (c, d) = ground (arith, e.same_iff a c, f.same_iff b d)

-- A struct of two comparable fields, compared field by field.
instance abbrev pub pair_eq {ℓ} : {A B : Type ℓ} ⦃e : Eq A⦄ ⦃f : Eq B⦄ → Eq (A × B)
pair_eq ⦃e⦄ ⦃f⦄ = record { same = same_pair e f; same_iff = same_pair_iff e f }

instance abbrev pub string_eq : Eq String
string_eq = record { same = str_eq; same_iff = eq_iff }

infix 50 ◌==◌
abbrev pub ◌==◌ {ℓ} : {A : Type ℓ} ⦃e : Eq A⦄ → A → A → Bool
◌==◌ ⦃e⦄ = e.same

instance abbrev pub nat_eq : Eq ℕ
nat_eq = record { same = same_nat; same_iff = same_nat_iff }
