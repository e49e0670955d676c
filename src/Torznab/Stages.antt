-- ===== src/Torznab/Stages.antt =====
-- The stages of ToValues in internal/torznab/query.go: what ParseQuery reads of the values so far, and the
-- keys that are still unset.
use resolver_addon.Prelude.{
  ◌≡◌, refl, sym, ap, ◌∙◌, Bool, true, false, List, [], ◌∷◌, ◌++◌, none, Result, ok, err, ◌>>=◌,
  arith, inl, inr, Bool-cases, All, if◌then◌else◌, map,
}
use resolver_addon.Prelude.Assoc.{find, store, find-store, store-new}
use resolver_addon.Prelude.Bytes.{Bytes, bytes_eq, bytes_eq_sound, codes, join, split-join, Lacks}
use resolver_addon.Prelude.Decimal.{itoa, atoi-itoa, itoa-Lacks_below, IsInt}
use resolver_addon.Prelude.Int.{ℤ, pos, eqb_ℤ, eq_of_eqb}
use resolver_addon.Torznab.Query.{Query, Values, set_text, set_int}
use resolver_addon.Torznab.ParseQuery.{
  QueryError, empty_query, set_entry, parse_from, parse_query, number, number_of, ints_of, all_cats,
}

parse_from-append :
    (v w : Values) (r : Query) → parse_from (v ++ w) r ≡ parse_from v r >>= parse_from w
unfolding parse_from
parse_from-append [] w r = refl
parse_from-append (e ∷ v) w r = go (set_entry e r) (parse_from-append v w)
  where
    go :
        (o : Result QueryError Query)
        → ((r' : Query) → parse_from (v ++ w) r' ≡ parse_from v r' >>= parse_from w)
        → o >>= parse_from (v ++ w) ≡ (o >>= parse_from v) >>= parse_from w
    go (ok r') h = h r'
    go (err x) h = refl

-- The keys `ks` are unset in `v`, which reads as `r`.
pub record Stage (ks : List Bytes) (v : Values) (r : Query) : Type 0 where
  pub unset : All (λ k. find v k ≡ none) ks
  pub parsed : parse_query v ≡ ok r

-- `k` is none of the keys `ks`.
abbrev IsApart : Bytes → List Bytes → Type 0
IsApart k = All (λ j. bytes_eq k j ≡ false)

abbrev pub all_differ : Bytes → List Bytes → Bool
all_differ k [] = true
all_differ k (j ∷ ks) = if bytes_eq k j then false else all_differ k ks

all_differ-IsApart : (k : Bytes) (ks : List Bytes) → all_differ k ks ≡ true → IsApart k ks
all_differ-IsApart k [] h = tt
all_differ-IsApart k (j ∷ ks) h = elim (Bool-cases (bytes_eq k j)) [
  | inl same ↦ absurd (ground (arith, h, same))
  | inr apart ↦ (apart, all_differ-IsApart k ks (ground (arith, h, apart)))
]

unset-store :
    (ks : List Bytes) (v : Values) (k : Bytes) (vals : List Bytes)
    → IsApart k ks
    → All (λ j. find v j ≡ none) ks
    → All (λ j. find (store v k vals) j ≡ none) ks
unset-store [] v k vals a h = tt
unset-store (j ∷ ks) v k vals (a, more) (h, hs) =
    (find-store v k j vals ∙ rw a h, unset-store ks v k vals more hs)

pub Stage-store :
    {ks : List Bytes} {v : Values} {r r' : Query} (k : Bytes) (vals : List Bytes)
    → all_differ k ks ≡ true
    → set_entry (k, vals) r ≡ ok r'
    → Stage (k ∷ ks) v r
    → Stage ks (store v k vals) r'
unfolding parse_from
Stage-store {ks} {v} {r} {r'} k vals a h st = record {
  unset = unset-store ks v k vals (all_differ-IsApart k ks a) st.unset.1;
  parsed =
      ap (λ w. parse_from w empty_query) (store-new v k vals st.unset.0)
      ∙ parse_from-append v ((k, vals) ∷ []) empty_query
      ∙ ap (λ o. o >>= parse_from ((k, vals) ∷ [])) st.parsed
      ∙ ap (λ o. o >>= parse_from []) h;
}

-- The key stays unset.
pub Stage-same :
    {ks : List Bytes} {v : Values} {r r' : Query} {k : Bytes}
    → r ≡ r'
    → Stage (k ∷ ks) v r
    → Stage ks v r'
Stage-same e st = record { unset = st.unset.1; parsed = st.parsed ∙ ap ok e }

-- A text that is set, or empty: `f` is the query for each text.
pub Stage-set_text :
    {ks : List Bytes} {v : Values} (k val : Bytes) (f : Bytes → Query)
    → all_differ k ks ≡ true
    → (bytes_eq val [] ≡ false → set_entry (k, val ∷ []) (f []) ≡ ok (f val))
    → Stage (k ∷ ks) v (f [])
    → Stage ks (set_text k val v) (f val)
unfolding set_text
Stage-set_text k val f a h st = elim (Bool-cases (bytes_eq val [])) [
  | inl nil ↦ rw nil (Stage-same (ap f (sym (bytes_eq_sound val [] nil))) st)
  | inr set ↦ rw set (Stage-store k (val ∷ []) a (h set) st)
]

-- An int that is set, or zero.
pub Stage-set_int :
    {ks : List Bytes} {v : Values} (k : Bytes) (z : ℤ) (f : ℤ → Query)
    → all_differ k ks ≡ true
    → set_entry (k, itoa z ∷ []) (f (pos 0)) ≡ ok (f z)
    → Stage (k ∷ ks) v (f (pos 0))
    → Stage ks (set_int k z v) (f z)
unfolding set_int
Stage-set_int k z f a h st = elim (Bool-cases (eqb_ℤ z (pos 0))) [
  | inl zero ↦ rw zero (Stage-same (ap f (sym (eq_of_eqb z (pos 0) zero))) st)
  | inr set ↦ rw set (Stage-store k (itoa z ∷ []) a h st)
]

-- A printed int is read back as a number of any key.
pub number-itoa : (k : Bytes) (z : ℤ) → IsInt z → number k (itoa z) ≡ ok z
unfolding number
number-itoa k z h = ap (number_of k) (atoi-itoa z h)

ints_of-itoa : (k : Bytes) (zs : List ℤ) → All IsInt zs → ints_of k (map itoa zs) ≡ ok zs
unfolding ints_of
ints_of-itoa k [] h = refl
ints_of-itoa k (z ∷ zs) (h, hs) = rw (number-itoa k z h, ints_of-itoa k zs hs)

itoas-Lack : (zs : List ℤ) → All (Lacks b',') (map itoa zs)
itoas-Lack [] = tt
itoas-Lack (z ∷ zs) = (itoa-Lacks_below b',' z (omega arith), itoas-Lack zs)

-- Printed categories are read back.
pub all_cats-itoa :
    (z : ℤ) (zs : List ℤ)
    → All IsInt (z ∷ zs)
    → all_cats [] (join (map itoa (z ∷ zs)) b',' ∷ []) ≡ ok (z ∷ zs)
unfolding all_cats
all_cats-itoa z zs h =
    ap
      (λ (ps : List Bytes).
        ints_of (codes "cat") ps >>= λ (ints : List ℤ). all_cats ([] ++ ints) [])
      (split-join b',' (itoa z) (map itoa zs) (itoas-Lack (z ∷ zs)))
    ∙ rw (ints_of-itoa (codes "cat") (z ∷ zs) h)
