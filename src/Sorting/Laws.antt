-- ===== src/Sorting/Laws.antt =====
-- The elements of a sorted slice.
use eastbay_overland_rally_p.Prelude.{Bool, Bool-cases, inl, inr, List, [], ◌∷◌, Mem, All}
use eastbay_overland_rally_p.Sorting.{insert_sorted, sort_slice}

module _ {A : Type 0} (less : A → A → Bool) where
  Mem-insert_sorted : (a x : A) (ys : List A) → Mem a (x ∷ ys) → Mem a (insert_sorted less x ys)
  unfolding insert_sorted
  Mem-insert_sorted a x [] h = h
  Mem-insert_sorted a x (y ∷ ys) h = elim (Bool-cases (less x y)) [
    | inl first ↦ rw first h
    | inr later ↦ rw later (elim h [
      | inl e ↦ inr (Mem-insert_sorted a x ys (inl e))
      | inr (inl e) ↦ inl e
      | inr (inr m) ↦ inr (Mem-insert_sorted a x ys (inr m))
    ])
  ]

  pub Mem-sort_slice : (a : A) (xs : List A) → Mem a xs → Mem a (sort_slice less xs)
  unfolding sort_slice
  Mem-sort_slice a [] h = h
  Mem-sort_slice a (x ∷ xs) (inl e) = Mem-insert_sorted a x (sort_slice less xs) (inl e)
  Mem-sort_slice a (x ∷ xs) (inr m) =
      Mem-insert_sorted a x (sort_slice less xs) (inr (Mem-sort_slice a xs m))

  module _ {κ} (P : A → Type κ) where
    All-insert_sorted : (x : A) (ys : List A) → P x → All P ys → All P (insert_sorted less x ys)
    unfolding insert_sorted
    All-insert_sorted x [] p h = (p, h)
    All-insert_sorted x (y ∷ ys) p (q, h) = elim (Bool-cases (less x y)) [
      | inl first ↦ rw first (p, (q, h))
      | inr later ↦ rw later (q, All-insert_sorted x ys p h)
    ]

    pub All-sort_slice : (xs : List A) → All P xs → All P (sort_slice less xs)
    unfolding sort_slice
    All-sort_slice [] h = h
    All-sort_slice (x ∷ xs) (p, h) =
        All-insert_sorted x (sort_slice less xs) p (All-sort_slice xs h)
