-- ===== src/BitField/Search.antt =====
-- `FirstIndexOf` and `LastIndexOf` look at the bits below `Length`.
use resolver_addon.BitField.{
  BitField8, get, bool_eq, first_from, first_index_of, last_below, last_index_of,
}
use resolver_addon.Prelude.{
  ℕ, zero, suc, ◌+◌, ◌≤◌, ◌<◌, ◌≡◌, ◌≢◌, Bool, true, false, Option, none, some, arith, inl, inr,
  Bool-cases,
}

-- No bit from `lo` on and below `hi` has the value.
abbrev pub Misses : BitField8 → Bool → ℕ → ℕ → Type 0
Misses bf val lo hi = (j : ℕ) → lo ≤ j → j < hi → get bf j ≢ val

-- The first bit with the value among those from `lo` on and below `hi`.
abbrev pub IsFirst : BitField8 → Bool → ℕ → ℕ → Option ℕ → Type 0
IsFirst bf val lo hi none = Misses bf val lo hi
IsFirst bf val lo hi (some i) = (lo ≤ i) × (i < hi) × (get bf i ≡ val) × Misses bf val lo i

abbrev pub IsLast : BitField8 → Bool → ℕ → Option ℕ → Type 0
IsLast bf val hi none = Misses bf val 0 hi
IsLast bf val hi (some i) = (i < hi) × (get bf i ≡ val) × Misses bf val (i + 1) hi

bool_eq-true : (a b : Bool) → bool_eq a b ≡ true → a ≡ b
bool_eq-true a b h = ground arith

bool_eq-false : (a b : Bool) → bool_eq a b ≡ false → a ≢ b
bool_eq-false a b h = ground arith

Misses-suc :
    (bf : BitField8) (val : Bool) (lo hi : ℕ)
    → get bf lo ≢ val
    → Misses bf val (lo + 1) hi
    → Misses bf val lo hi
Misses-suc bf val lo hi h m j p q e = ground (arith, h, m j)

IsFirst-suc :
    (bf : BitField8) (val : Bool) (lo hi : ℕ) (r : Option ℕ)
    → get bf lo ≢ val
    → IsFirst bf val (lo + 1) hi r
    → IsFirst bf val lo hi r
IsFirst-suc bf val lo hi none h m = Misses-suc bf val lo hi h m
IsFirst-suc bf val lo hi (some i) h (p, q, e, m) = (omega arith, q, e, Misses-suc bf val lo i h m)

first_from-IsFirst :
    (bf : BitField8) (val : Bool) (n lo hi : ℕ)
    → lo + n ≡ hi
    → IsFirst bf val lo hi (first_from bf val n lo)
unfolding first_from
first_from-IsFirst bf val zero lo hi e = λ j p q. absurd (omega arith)
first_from-IsFirst bf val (suc n) lo hi e = elim (Bool-cases (bool_eq (get bf lo) val)) [
  | inl found ↦
      rw found (omega arith, omega arith, bool_eq-true _ val found, λ j p q. absurd (omega arith))
  | inr other ↦ rw other (
      IsFirst-suc bf val lo hi _ (bool_eq-false _ val other)
        (first_from-IsFirst bf val n (lo + 1) hi (omega arith)))
]

-- `FirstIndexOf` returns the least index below `Length` whose bit has the value, and -1 exactly
-- when there is none.
pub first_index_of-IsFirst :
    (bf : BitField8) (val : Bool) → IsFirst bf val 0 bf.len (first_index_of bf val)
unfolding first_index_of
first_index_of-IsFirst bf val = first_from-IsFirst bf val bf.len 0 bf.len (omega arith)

Misses-up :
    (bf : BitField8) (val : Bool) (lo n : ℕ)
    → get bf n ≢ val
    → Misses bf val lo n
    → Misses bf val lo (suc n)
Misses-up bf val lo n h m j p q e = ground (arith, h, m j)

IsLast-suc :
    (bf : BitField8) (val : Bool) (n : ℕ) (r : Option ℕ)
    → get bf n ≢ val
    → IsLast bf val n r
    → IsLast bf val (suc n) r
IsLast-suc bf val n none h m = Misses-up bf val 0 n h m
IsLast-suc bf val n (some i) h (q, e, m) = (omega arith, e, Misses-up bf val (i + 1) n h m)

last_below-IsLast : (bf : BitField8) (val : Bool) (n : ℕ) → IsLast bf val n (last_below bf val n)
unfolding last_below
last_below-IsLast bf val zero = λ j p q. absurd (omega arith)
last_below-IsLast bf val (suc n) = elim (Bool-cases (bool_eq (get bf n) val)) [
  | inl found ↦ rw found (omega arith, bool_eq-true _ val found, λ j p q. absurd (omega arith))
  | inr other ↦
      rw other (IsLast-suc bf val n _ (bool_eq-false _ val other) (last_below-IsLast bf val n))
]

-- `LastIndexOf` returns the greatest index below `Length` whose bit has the value, and -1 exactly
-- when there is none.
pub last_index_of-IsLast :
    (bf : BitField8) (val : Bool) → IsLast bf val bf.len (last_index_of bf val)
unfolding last_index_of
last_index_of-IsLast bf val = last_below-IsLast bf val bf.len
