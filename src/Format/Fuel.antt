-- ===== src/Format/Fuel.antt =====
-- The fuel with which a number is printed.
use Prim.Native.String.{◌++◌ as ◌·◌}
use eastbay_overland_rally_p.Prelude.{
  ℕ, zero, suc, ◌≤◌, ◌/◌, ◌%◌, ◌≡◌, refl, ap, inl, inr, Bool-cases, ltb, arith, false,
}
use eastbay_overland_rally_p.Format.{digit, digits_of, format_nat}

tenth_below : (n f : ℕ) → n ≤ suc f → ltb n 10 ≡ false → n / 10 ≤ f
tenth_below n f h big = ground arith

digits_of_enough : (f g n : ℕ) → n ≤ f → n ≤ g → digits_of f n ≡ digits_of g n
unfolding digits_of
digits_of_enough zero zero n p q = refl
digits_of_enough zero (suc g) n p q = ground arith
digits_of_enough (suc f) zero n p q = ground arith
digits_of_enough (suc f) (suc g) n p q = elim (Bool-cases (ltb n 10)) [
  | inl small ↦ rw small refl
  | inr big ↦ rw big (
      ap (λ s. s · digit (n % 10))
        (digits_of_enough f g (n / 10) (tenth_below n f p big) (tenth_below n g q big)))
]

-- The digits of a number are the same for every fuel that is the number or more.
pub digits_of-fuel : (fuel n : ℕ) → n ≤ fuel → digits_of fuel n ≡ format_nat n
unfolding format_nat
digits_of-fuel fuel n h = digits_of_enough fuel n n h (omega arith)
