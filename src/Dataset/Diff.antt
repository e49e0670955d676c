-- ===== src/Dataset/Diff.antt =====
-- `diffRows` of internal/util/tsv_dataset.go, simple_tsv_dataset.go and `diffItems` of
-- json_dataset.go: one pass over two readers, which are lists here. A row has a key; `equal` is
-- `slices.Equal`, or the dataset's own test.
use mathlib.Core.Path.{subst}
use resolver_addon.Prelude.{
  ◌≡◌, sym, refl, ◌∙◌, List, [], ◌∷◌, arith, Bool, true, false, ◌&&◌, ◌||◌, if◌then◌else◌, All, ap,
}
use resolver_addon.Prelude.Bytes.{Bytes}
use resolver_addon.Prelude.TextOrder.{
  Order, less, same, more, compare_bytes, compare_bytes-same, compare_bytes_refl,
  compare_bytes-more, compare_bytes-less, compare_bytes_trans,
}

abbrev is_same : Order → Bool
is_same same = true
is_same _ = false

-- The keys grow strictly.
abbrev pub IsSorted {ℓ} : {T : Type ℓ} → (T → Bytes) → List T → Type ℓ
IsSorted key [] = Unit
IsSorted key (r ∷ rows) = All (λ s. compare_bytes (key r) (key s) ≡ less) rows × IsSorted key rows

module _ {ℓ} {T : Type ℓ} (key : T → Bytes) (equal : T → T → Bool) where
  -- The rows that are yielded.
  unfoldable pub diff_rows : List T → List T → List T
  diff_rows [] new = new
  diff_rows (o ∷ old) [] = []
  diff_rows (o ∷ old) (n ∷ new) = elim (compare_bytes (key o) (key n)) [
    | less ↦ diff_rows old (n ∷ new)
    | more ↦ n ∷ diff_rows (o ∷ old) new
    | same ↦ let rest = diff_rows old new in if equal o n then rest else n ∷ rest
  ]

  -- An old row has the key of the row, and equals it.
  pub is_unchanged : List T → T → Bool
  is_unchanged [] n = false
  is_unchanged (o ∷ old) n =
      (is_same (compare_bytes (key o) (key n)) && equal o n) || is_unchanged old n

  -- The new rows that are not unchanged.
  pub changes : List T → List T → List T
  changes old [] = []
  changes old (n ∷ new) = if is_unchanged old n then changes old new else n ∷ changes old new

  changes_nil : (new : List T) → changes [] new ≡ new
  unfolding changes is_unchanged
  changes_nil [] = refl
  changes_nil (n ∷ new) = ap (◌∷◌ n) (changes_nil new)

  -- An old row below all new rows matters to none of them.
  changes_below :
      (o : T) (old new : List T)
      → All (λ s. compare_bytes (key o) (key s) ≡ less) new
      → changes (o ∷ old) new ≡ changes old new
  unfolding changes is_unchanged
  changes_below o old [] h = refl
  changes_below o old (n ∷ new) (hn, h) = ground (arith, changes_below o old new h)

  -- A new row below all old rows is new.
  is_unchanged_below :
      (n : T) (old : List T)
      → All (λ s. compare_bytes (key n) (key s) ≡ less) old
      → is_unchanged old n ≡ false
  unfolding is_unchanged
  is_unchanged_below n [] h = refl
  is_unchanged_below n (o ∷ old) (ho, h) =
      ground (arith, compare_bytes-less (key n) (key o) ho, is_unchanged_below n old h)

  All-lt_trans :
      (a b : T) (rows : List T)
      → compare_bytes (key a) (key b) ≡ less
      → All (λ s. compare_bytes (key b) (key s) ≡ less) rows
      → All (λ s. compare_bytes (key a) (key s) ≡ less) rows
  All-lt_trans a b [] h k = tt
  All-lt_trans a b (r ∷ rows) h (kr, k) =
      (compare_bytes_trans (key a) (key b) (key r) h kr, All-lt_trans a b rows h k)

  -- Rows with one key: the rows behind either are above both.
  All-same :
      (a b : T) (rows : List T)
      → compare_bytes (key a) (key b) ≡ same
      → All (λ s. compare_bytes (key b) (key s) ≡ less) rows
      → All (λ s. compare_bytes (key a) (key s) ≡ less) rows
  All-same a b rows h k =
      let e : key a ≡ key b = compare_bytes-same (key a) (key b) h in
      subst (λ t. All (λ s. compare_bytes t (key s) ≡ less) rows) (sym e) k

  below_all :
      (n o : T) (old : List T)
      → compare_bytes (key o) (key n) ≡ more
      → IsSorted key (o ∷ old)
      → is_unchanged (o ∷ old) n ≡ false
  below_all n o old h (ho, _) =
      let lt = compare_bytes-more (key o) (key n) h in
      is_unchanged_below n (o ∷ old) (lt, All-lt_trans n o old lt ho)

  changes_kept :
      (n : T) (old new : List T)
      → is_unchanged old n ≡ false
      → changes old (n ∷ new) ≡ n ∷ changes old new
  unfolding changes
  changes_kept n old new h = rw h

  same_key :
      (o n : T) (old new : List T)
      → compare_bytes (key o) (key n) ≡ same
      → All (λ s. compare_bytes (key o) (key s) ≡ less) old
      → All (λ s. compare_bytes (key n) (key s) ≡ less) new
      → diff_rows old new ≡ changes old new
      → (if equal o n then diff_rows old new else n ∷ diff_rows old new)
        ≡ changes (o ∷ old) (n ∷ new)
  unfolding changes is_unchanged
  same_key o n old new e ho hn k =
      let keys : key o ≡ key n = compare_bytes-same (key o) (key n) e in
      let e' : compare_bytes (key n) (key o) ≡ same = rw keys (compare_bytes_refl (key n)) in
      rw
        (
          k,
          changes_below o old new (All-same o n new e hn),
          is_unchanged_below n old (All-same n o old e' ho),
          e,
        )
        (ground arith)

  -- For two files whose keys grow strictly the pass yields the new rows that no old row with the
  -- same key equals, each once and in order.
  pub diff_rows-eq-changes :
      (old new : List T) → IsSorted key old → IsSorted key new → diff_rows old new ≡ changes old new
  unfolding diff_rows
  diff_rows-eq-changes [] new so sn = sym (changes_nil new)
  diff_rows-eq-changes (o ∷ old) [] so sn = unfold changes in refl
  diff_rows-eq-changes (o ∷ old) (n ∷ new) so sn =
      by_order (compare_bytes (key o) (key n)) refl (diff_rows-eq-changes old (n ∷ new) so.1 sn)
        (diff_rows-eq-changes (o ∷ old) new so sn.1) (diff_rows-eq-changes old new so.1 sn.1)
    where
      by_order :
          (c : Order)
          → compare_bytes (key o) (key n) ≡ c
          → diff_rows old (n ∷ new) ≡ changes old (n ∷ new)
          → diff_rows (o ∷ old) new ≡ changes (o ∷ old) new
          → diff_rows old new ≡ changes old new
          → diff_rows (o ∷ old) (n ∷ new) ≡ changes (o ∷ old) (n ∷ new)
      by_order less e i j k =
          rw (e, diff_rows)
            (i ∙ sym (changes_below o old (n ∷ new) (e, All-lt_trans o n new e sn.0)))
      by_order more e i j k =
          rw (e, diff_rows)
            (ap (◌∷◌ n) j ∙ sym (changes_kept n (o ∷ old) new (below_all n o old e so)))
      by_order same e i j k = rw (e, diff_rows) (same_key o n old new e so.0 sn.0 k)
