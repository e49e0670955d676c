-- ===== src/Sorter/Stable.antt =====
-- Go's sort.Stable on a list, as an insertion sort, and what it promises where `less` is a strict weak order
-- on the items. The items so far are kept with the last in front.
use resolver_addon.Prelude.{Bool, List, [], ◌∷◌, if◌then◌else◌}

module _ {ℓ} {A : Type ℓ} where
  unfoldable pub reverse_onto : List A → List A → List A
  reverse_onto [] out = out
  reverse_onto (x ∷ xs) out = reverse_onto xs (x ∷ out)

  unfoldable pub keep : (A → Bool) → List A → List A
  keep p [] = []
  keep p (x ∷ xs) = let rest = keep p xs in if p x then x ∷ rest else rest

module _ {ℓ} {A : Type ℓ} (less : A → A → Bool) where
  -- The item moves past those that it is less than.
  unfoldable pub insert : A → List A → List A
  insert x [] = x ∷ []
  insert x (y ∷ ys) = let rest = insert x ys in if less x y then y ∷ rest else x ∷ y ∷ ys

  unfoldable pub insert_all : List A → List A → List A
  unfolding insert
  insert_all [] sorted = sorted
  insert_all (x ∷ xs) sorted = insert_all xs (insert x sorted)

  unfoldable pub sort_stable : List A → List A
  unfolding insert_all reverse_onto
  sort_stable xs = reverse_onto (insert_all xs []) []
