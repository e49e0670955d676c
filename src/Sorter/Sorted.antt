-- ===== src/Sorter/Sorted.antt =====
-- What a stable sort promises, and that the insertion sort keeps the promise where `less` is a strict weak
-- order on the items.
use mathlib.Core.Path.{subst}
use mathlib.Core.List.{Perm, perm_middle}
use mathlib.Core.List.Perm
use resolver_addon.Prelude.{
  ◌≡◌, refl, ap, sym, ◌∙◌, Bool, true, false, not, ◌&&◌, List, [], ◌∷◌, ◌++◌, arith, inl, inr,
  Bool-cases, All, if◌then◌else◌, append-nil,
}
use resolver_addon.Sorter.Stable.{reverse_onto, keep, insert, insert_all, sort_stable}

module _ {A : Type 0} where
  -- The two are not ordered by `less`.
  abbrev pub ties : (A → A → Bool) → A → A → Bool
  ties less a b = not (less a b) && not (less b a)

  -- No item is less than one in front of it.
  abbrev pub IsAscending : (A → A → Bool) → List A → Type 0
  IsAscending less [] = Unit
  IsAscending less (x ∷ xs) = All (λ y. less y x ≡ false) xs × IsAscending less xs

  -- A stable sort: the same items, in ascending order; and those that tie with an item are in the order that
  -- they had.
  pub record IsStableSort (P : A → Type 0) (less : A → A → Bool) (items out : List A) : Type 0 where
    pub perm : Perm out items
    pub ascending : IsAscending less out
    pub stable : (a : A) → P a → keep (ties less a) out ≡ keep (ties less a) items

  -- A strict weak order on the items with `P`.
  pub record IsOrder (P : A → Type 0) (less : A → A → Bool) : Type 0 where
    pub asym : (a b : A) → P a → P b → less a b ≡ true → less b a ≡ false
    pub trans :
        (a b c : A) → P a → P b → P c → less a b ≡ false → less b c ≡ false → less a c ≡ false

  keep-reverse_onto :
      (p : A → Bool) (xs out : List A)
      → keep p (reverse_onto xs out) ≡ reverse_onto (keep p xs) (keep p out)
  unfolding keep reverse_onto
  keep-reverse_onto p [] out = refl
  keep-reverse_onto p (x ∷ xs) out = elim (Bool-cases (p x)) [
    | inl h ↦ keep-reverse_onto p xs (x ∷ out) ∙ rw h refl
    | inr h ↦ keep-reverse_onto p xs (x ∷ out) ∙ rw h refl
  ]

  reverse_onto-twice :
      (xs out more : List A)
      → reverse_onto (reverse_onto xs out) more ≡ reverse_onto out (xs ++ more)
  unfolding reverse_onto
  reverse_onto-twice [] out more = refl
  reverse_onto-twice (x ∷ xs) out more = reverse_onto-twice xs (x ∷ out) more

  reverse_onto-Perm : (xs out : List A) → Perm (reverse_onto xs out) (xs ++ out)
  unfolding reverse_onto
  reverse_onto-Perm [] out = Perm.refl out
  reverse_onto-Perm (x ∷ xs) out = Perm.trans (reverse_onto-Perm xs (x ∷ out)) (perm_middle xs out)

  insert-All :
      (less : A → A → Bool) (Q : A → Type 0) (x : A) (ys : List A)
      → Q x
      → All Q ys
      → All Q (insert less x ys)
  unfolding insert
  insert-All less Q x [] q h = (q, h)
  insert-All less Q x (y ∷ ys) q (hy, h) = elim (Bool-cases (less x y)) [
    | inl lt ↦ rw lt (hy, insert-All less Q x ys q h)
    | inr ge ↦ rw ge (q, (hy, h))
  ]

  module _ (P : A → Type 0) (less : A → A → Bool) (order : IsOrder P less) where
    -- No item is less than one behind it.
    abbrev IsDescending : List A → Type 0
    IsDescending [] = Unit
    IsDescending (x ∷ xs) = All (λ y. less x y ≡ false) xs × IsDescending xs

    below-All :
        (x y : A) (ys : List A)
        → P x
        → P y
        → All P ys
        → less x y ≡ false
        → All (λ z. less y z ≡ false) ys
        → All (λ z. less x z ≡ false) ys
    below-All x y [] px py ps h hs = tt
    below-All x y (z ∷ ys) px py (pz, ps) h (hz, hs) =
        (order.trans x y z px py pz h hz, below-All x y ys px py ps h hs)

    insert-IsDescending :
        (x : A) (ys : List A) → P x → All P ys → IsDescending ys → IsDescending (insert less x ys)
    unfolding insert
    insert-IsDescending x [] px ps d = (tt, tt)
    insert-IsDescending x (y ∷ ys) px (py, ps) (h, d) = elim (Bool-cases (less x y)) [
      | inl lt ↦ rw lt (
        insert-All less (λ z. less y z ≡ false) x ys (order.asym x y px py lt) h,
        insert-IsDescending x ys px ps d,
      )
      | inr ge ↦ rw ge ((ge, below-All x y ys px py ps ge h), (h, d))
    ]

    insert-Perm : (x : A) (ys : List A) → Perm (insert less x ys) (x ∷ ys)
    unfolding insert
    insert-Perm x [] = Perm.refl (x ∷ [])
    insert-Perm x (y ∷ ys) = elim (Bool-cases (less x y)) [
      | inl lt ↦ rw lt (Perm.trans (Perm.cons y (insert-Perm x ys)) (Perm.swap x y ys))
      | inr ge ↦ rw ge (Perm.refl (x ∷ y ∷ ys))
    ]

    -- Of two items that are ordered, not both tie with `a`.
    not_both :
        (a x y : A)
        → P a
        → P x
        → P y
        → less x y ≡ true
        → ties less a x ≡ true
        → ties less a y ≡ false
    not_both a x y pa px py lt h = elim (Bool-cases (ties less a y)) [
      | inr off ↦ off
      | inl on ↦ absurd (ground (arith, lt, h, on, order.trans x a y px pa py))
    ]

    swap_if :
        (p q : Bool) (x y : A) (k : List A)
        → (p ≡ true → q ≡ false)
        → (if q then y ∷ (if p then x ∷ k else k) else (if p then x ∷ k else k))
          ≡ (if p then x ∷ (if q then y ∷ k else k) else (if q then y ∷ k else k))
    swap_if true true x y k h = absurd (ground (arith, h refl))
    swap_if true false x y k h = refl
    swap_if false q x y k h = refl

    keep-insert :
        (a x : A) (ys : List A)
        → P a
        → P x
        → All P ys
        → keep (ties less a) (insert less x ys) ≡ keep (ties less a) (x ∷ ys)
    unfolding keep insert
    keep-insert a x [] pa px ps = refl
    keep-insert a x (y ∷ ys) pa px (py, ps) = elim (Bool-cases (less x y)) [
      | inr ge ↦ rw ge refl
      | inl lt ↦ rw lt (
          ap (λ k. if ties less a y then y ∷ k else k) (keep-insert a x ys pa px ps)
          ∙ swap_if (ties less a x) (ties less a y) x y (keep (ties less a) ys)
              (not_both a x y pa px py lt))
    ]

    insert_all-All : (xs ys : List A) → All P xs → All P ys → All P (insert_all less xs ys)
    unfolding insert_all
    insert_all-All [] ys h hs = hs
    insert_all-All (x ∷ xs) ys (h, hx) hs =
        insert_all-All xs (insert less x ys) hx (insert-All less P x ys h hs)

    insert_all-IsDescending :
        (xs ys : List A)
        → All P xs
        → All P ys
        → IsDescending ys
        → IsDescending (insert_all less xs ys)
    unfolding insert_all
    insert_all-IsDescending [] ys h hs d = d
    insert_all-IsDescending (x ∷ xs) ys (h, hx) hs d =
        insert_all-IsDescending xs (insert less x ys) hx (insert-All less P x ys h hs)
          (insert-IsDescending x ys h hs d)

    insert_all-Perm : (xs ys : List A) → Perm (insert_all less xs ys) (xs ++ ys)
    unfolding insert_all
    insert_all-Perm [] ys = Perm.refl ys
    insert_all-Perm (x ∷ xs) ys =
        Perm.trans (insert_all-Perm xs (insert less x ys))
          (Perm.trans (Perm.append_left xs (insert-Perm x ys)) (perm_middle xs ys))

    keep-insert_all :
        (a : A) (xs ys : List A)
        → P a
        → All P xs
        → All P ys
        → keep (ties less a) (insert_all less xs ys)
          ≡ reverse_onto (keep (ties less a) xs) (keep (ties less a) ys)
    unfolding insert_all reverse_onto keep
    keep-insert_all a [] ys pa h hs = refl
    keep-insert_all a (x ∷ xs) ys pa (h, hx) hs =
        keep-insert_all a xs (insert less x ys) pa hx (insert-All less P x ys h hs)
        ∙ ap (reverse_onto (keep (ties less a) xs)) (keep-insert a x ys pa h hs)
        ∙ (unfold keep reverse_onto in
            elim (Bool-cases (ties less a x)) [ inl e ↦ rw e refl | inr e ↦ rw e refl ])

    -- What is read off backwards ascends, if the rest lies above it.
    reverse_onto-IsAscending :
        (xs out : List A)
        → IsDescending xs
        → IsAscending less out
        → All (λ x. All (λ y. less y x ≡ false) out) xs
        → IsAscending less (reverse_onto xs out)
    unfolding reverse_onto
    reverse_onto-IsAscending [] out d h hs = h
    reverse_onto-IsAscending (x ∷ xs) out (dx, d) h (hx, hs) =
        reverse_onto-IsAscending xs (x ∷ out) d (hx, h) (both xs dx hs)
      where
        both :
            (zs : List A)
            → All (λ y. less x y ≡ false) zs
            → All (λ z. All (λ y. less y z ≡ false) out) zs
            → All (λ z. All (λ y. less y z ≡ false) (x ∷ out)) zs
        both [] a b = tt
        both (z ∷ zs) (a, more) (b, bs) = ((a, b), both zs more bs)

    nothing_above : (xs : List A) → All (λ x. All (λ y. less y x ≡ false) []) xs
    nothing_above [] = tt
    nothing_above (x ∷ xs) = (tt, nothing_above xs)

    -- The insertion sort keeps what a stable sort promises.
    pub sort_stable-IsStableSort :
        (items : List A) → All P items → IsStableSort P less items (sort_stable less items)
    unfolding sort_stable keep
    sort_stable-IsStableSort items h =
        let sorted = insert_all less items [] in
        record {
          perm = Perm.trans (reverse_onto-Perm sorted []) (
              subst (λ l. Perm l items) (sym (append-nil sorted))
                (subst (λ l. Perm sorted l) (append-nil items) (insert_all-Perm items [])));
          ascending =
              reverse_onto-IsAscending sorted [] (insert_all-IsDescending items [] h tt tt) tt
                (nothing_above sorted);
          stable = λ a pa.
              keep-reverse_onto (ties less a) sorted []
              ∙ ap (λ l. reverse_onto l []) (keep-insert_all a items [] pa h tt)
              ∙ reverse_onto-twice (keep (ties less a) items) [] []
              ∙ (unfold reverse_onto in append-nil (keep (ties less a) items));
        }

-- Two tests that agree on the items sort them alike.
module _ {A : Type 0} (P : A → Type 0) (less other : A → A → Bool)
    (agree : (a b : A) → P a → P b → less a b ≡ other a b) where
  insert-same : (x : A) (ys : List A) → P x → All P ys → insert less x ys ≡ insert other x ys
  unfolding insert
  insert-same x [] px ps = refl
  insert-same x (y ∷ ys) px (py, ps) =
      ap (λ b. if b then y ∷ insert less x ys else x ∷ y ∷ ys) (agree x y px py)
      ∙ ap (λ l. if other x y then y ∷ l else x ∷ y ∷ ys) (insert-same x ys px ps)

  insert_all-same :
      (xs ys : List A)
      → All P xs
      → All P ys
      → All P (insert_all less xs ys) × (insert_all less xs ys ≡ insert_all other xs ys)
  unfolding insert_all
  insert_all-same [] ys h hs = (hs, refl)
  insert_all-same (x ∷ xs) ys (px, h) hs =
      let (all, e) = insert_all-same xs (insert less x ys) h (insert-All less P x ys px hs) in
      (all, e ∙ ap (insert_all other xs) (insert-same x ys px hs))

  pub sort_stable-same :
      (items : List A) → All P items → sort_stable less items ≡ sort_stable other items
  unfolding sort_stable
  sort_stable-same items h = ap (λ l. reverse_onto l []) (insert_all-same items [] h tt).1
