-- ===== src/BitField/Access.antt =====
-- Reading and writing a bit of a bit field.
use resolver_addon.BitField.{
  BitField8, get, set_bit, grow, new, pad_to, with_values, ceil8, write_bit, test_bit,
}
use resolver_addon.BitField.Bits.{test_bit-write_bit, write_bit-lt, test_bit-zero}
use resolver_addon.Prelude.{
  ℕ, zero, suc, ◌+◌, ◌-◌, ◌*◌, ◌/◌, ◌%◌, ◌≤◌, ◌<◌, ◌≡◌, refl, Bool, false, List, [], ◌∷◌, ◌++◌, inl,
  inr, arith, ltb, leb, ◌==◌, if◌then◌else◌, Bool-cases, length, get_or, replicate, length-append,
  length-replicate, length-set, get_or-set, get_or-append, get_or-replicate, All, All-append,
  All-replicate, All-set, All-get_or,
}

-- Every value is a byte, and the length does not go past the bytes.
pub record IsValid (bf : BitField8) : Type 0 where
  pub bytes : All (λ v. v < 256) bf.values
  pub covered : bf.len ≤ length bf.values * 8

All-pad : (xs : List ℕ) (n : ℕ) → All (λ v. v < 256) xs → All (λ v. v < 256) (xs ++ replicate n 0)
All-pad xs n h = All-append _ xs _ h (All-replicate _ n 0 (omega arith))

length-pad : (xs : List ℕ) (n : ℕ) → length (xs ++ replicate n 0) ≡ length xs + n
length-pad xs n = omega (arith, length-append xs (replicate n 0), length-replicate {A = ℕ} n 0)

get_or_past : (xs : List ℕ) (k : ℕ) → length xs ≤ k → get_or xs k 0 ≡ 0
get_or_past [] k h = refl
get_or_past (x ∷ xs) zero h = absurd (omega arith)
get_or_past (x ∷ xs) (suc k) h = get_or_past xs k (omega arith)

get_or-pad : (xs : List ℕ) (n j : ℕ) → get_or (xs ++ replicate n 0) j 0 ≡ get_or xs j 0
get_or-pad xs n j = ground (
  arith,
  get_or-append xs (replicate n 0) j 0,
  get_or-replicate {A = ℕ} n (j - length xs) 0,
  get_or_past xs j,
)

pub new-IsValid : (n : ℕ) → IsValid (new n)
unfolding new
new-IsValid n = record {
  bytes = All-replicate _ (ceil8 n) 0 (omega arith);
  covered = omega (arith, length-replicate {A = ℕ} (ceil8 n) 0);
}

pad_to-IsValid :
    (values : List ℕ) (n : ℕ)
    → All (λ v. v < 256) values
    → IsValid (record { len = n; values = pad_to values (ceil8 n) })
unfolding pad_to
pad_to-IsValid values n h = elim (Bool-cases (ltb (length values) (ceil8 n))) [
  | inl short ↦ record {
    bytes = rw short (All-pad values _ h);
    covered = rw short (ground (arith, length-pad values (ceil8 n - length values)));
  }
  | inr fits ↦ record { bytes = rw fits h; covered = rw fits (ground arith) }
]

pub with_values-IsValid :
    (values : List ℕ) (n : ℕ) → All (λ v. v < 256) values → IsValid (with_values values n)
unfolding with_values
with_values-IsValid values n h = pad_to-IsValid values _ h

-- The byte that holds a bit; past the end it reads as zero.
pub byte : BitField8 → ℕ → ℕ
byte bf k = get_or bf.values k 0

pub get_lem : (bf : BitField8) (i : ℕ) → get bf i ≡ test_bit (byte bf (i / 8)) (i % 8)
unfolding get byte
get_lem bf i = ground (arith, get_or_past bf.values (i / 8), test_bit-zero (i % 8) (omega arith))

byte-lt : (bf : BitField8) (k : ℕ) → IsValid bf → byte bf k < 256
unfolding byte
byte-lt bf k h = All-get_or _ bf.values k 0 h.bytes (omega arith)

grow-IsValid : (bf : BitField8) (k : ℕ) → IsValid bf → IsValid (grow bf k)
unfolding grow
grow-IsValid bf k h = elim (Bool-cases (leb (length bf.values) k)) [
  | inl past ↦ rw past (record { bytes = All-pad bf.values _ h.bytes; covered = omega arith })
  | inr inside ↦ rw inside h
]

byte-grow : (bf : BitField8) (k j : ℕ) → byte (grow bf k) j ≡ byte bf j
unfolding grow byte
byte-grow bf k j = ground (arith, get_or-pad bf.values (k - length bf.values + 1) j)

lt-length-grow : (bf : BitField8) (k : ℕ) → k < length (grow bf k).values
unfolding grow
lt-length-grow bf k = ground (arith, length-pad bf.values (k - length bf.values + 1))

-- A write keeps the bit field well formed.
pub set_bit-IsValid :
    (bf : BitField8) (i : ℕ) (val : Bool) → IsValid bf → IsValid (set_bit bf i val)
unfolding set_bit byte
set_bit-IsValid bf i val h =
    let g = grow-IsValid bf (i / 8) h in
    record {
      bytes =
          All-set _ (grow bf (i / 8)).values (i / 8) _ g.bytes
            (write_bit-lt val _ (i % 8) (byte-lt (grow bf (i / 8)) (i / 8) g) (omega arith));
      covered = rw (length-set (grow bf (i / 8)).values (i / 8) _) g.covered;
    }

pub byte-set_bit :
    (bf : BitField8) (i k : ℕ) (val : Bool)
    → byte (set_bit bf i val) k
      ≡ (if i / 8 == k then write_bit (byte bf (i / 8)) (i % 8) val else byte bf k)
unfolding set_bit byte
byte-set_bit bf i k val =
    rw (get_or-set (grow bf (i / 8)).values (i / 8) k _ 0 (lt-length-grow bf (i / 8)))
      (ground (arith, byte-grow bf (i / 8) (i / 8), byte-grow bf (i / 8) k))

-- A write to a well-formed field changes the bit that it names and no other, also where the field
-- has to grow.
pub get-set_bit :
    (bf : BitField8) (i j : ℕ) (val : Bool)
    → IsValid bf
    → get (set_bit bf i val) j ≡ (if i == j then val else get bf j)
get-set_bit bf i j val h =
    rw (get_lem (set_bit bf i val) j, get_lem bf j, byte-set_bit bf i (j / 8) val)
      (ground
        (arith, test_bit-write_bit val (byte bf (i / 8)) (i % 8) (j % 8) (byte-lt bf (i / 8) h)))

pub byte-with_values :
    (values : List ℕ) (n k : ℕ) → byte (with_values values n) k ≡ get_or values k 0
unfolding with_values byte
byte-with_values values n k = ground (arith, get_or-pad values (ceil8 n - length values) k)

pub byte-new : (n k : ℕ) → byte (new n) k ≡ 0
unfolding new byte
byte-new n k = get_or-replicate {A = ℕ} (ceil8 n) k 0

-- A new bit field has no bit set.
pub get-new : (n i : ℕ) → get (new n) i ≡ false
get-new n i = rw (get_lem (new n) i, byte-new n (i / 8)) (test_bit-zero (i % 8) (omega arith))

-- Filling up with zeros changes no bit, and neither does the length that is asked for.
pub get-with_values : (bf : BitField8) (n i : ℕ) → get (with_values bf.values n) i ≡ get bf i
get-with_values bf n i =
    rw (get_lem (with_values bf.values n) i, get_lem bf i, byte-with_values bf.values n (i / 8))
      (unfold byte in refl)
