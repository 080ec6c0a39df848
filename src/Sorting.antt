-- ===== src/Sorting.antt =====
-- sort.Slice of Go's package sort, as the insertion sort by the same `less`. Every comparison of the
-- program takes an identifier into account, so that no two elements of a listing are equal under it.
pub mod Laws
use eastbay_overland_rally_p.Prelude.{Bool, List, [], ◌∷◌, if◌then◌else◌}

module _ {ℓ} {A : Type ℓ} (less : A → A → Bool) where
  pub insert_sorted : A → List A → List A
  insert_sorted x [] = x ∷ []
  insert_sorted x (y ∷ ys) = if less x y then x ∷ y ∷ ys else y ∷ insert_sorted x ys

  unfoldable pub sort_slice : List A → List A
  unfolding insert_sorted
  sort_slice [] = []
  sort_slice (x ∷ xs) = insert_sorted x (sort_slice xs)
