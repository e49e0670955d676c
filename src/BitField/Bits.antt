-- ===== src/BitField/Bits.antt =====
-- One bit of a byte. The laws of the mask operations are read off the table of all bytes.
use resolver_addon.BitField.{test_bit, write_bit, bool_eq}
use resolver_addon.Prelude.{
  ℕ, zero, suc, ◌<◌, ◌≡◌, refl, Bool, true, false, ◌&&◌, arith, ltb, ◌==◌, if◌then◌else◌, ltb→lt,
}

-- Every number below the bound passes.
every : (ℕ → Bool) → ℕ → Bool
every test zero = true
every test (suc top) = every test top && test top

every_sound : (test : ℕ → Bool) (top : ℕ) {k : ℕ} → every test top ≡ true → k < top → test k ≡ true
unfolding every
every_sound test zero found below = absurd (omega arith)
every_sound test (suc top) {k} found below = ground (arith, every_sound test top {k = k})

-- What a write of one bit does to each bit of the byte.
abbrev writes_one : Bool → ℕ → ℕ → ℕ → Bool
writes_one val v b c =
    bool_eq (test_bit (write_bit v b val) c) (if b == c then val else test_bit v c)

abbrev writes_table : Bool → Bool
writes_table val = every (λ v. every (λ b. every (λ c. writes_one val v b c) 8) 8) 256

table_true : writes_table true ≡ true
unfolding every test_bit write_bit
table_true = refl

table_false : writes_table false ≡ true
unfolding every test_bit write_bit
table_false = refl

table : (val : Bool) → writes_table val ≡ true
table true = table_true
table false = table_false

bool_eq_sound : (a b : Bool) → bool_eq a b ≡ true → a ≡ b
bool_eq_sound a b h = ground arith

-- Writing bit `b` of a byte changes bit `b` and no other.
pub test_bit-write_bit :
    (val : Bool) (v b c : ℕ)
    → v < 256
    → b < 8
    → c < 8
    → test_bit (write_bit v b val) c ≡ (if b == c then val else test_bit v c)
test_bit-write_bit val v b c hv hb hc =
    bool_eq_sound _ _ (every_sound _ 8 (every_sound _ 8 (every_sound _ 256 (table val) hv) hb) hc)

abbrev range_table : Bool → Bool
range_table val = every (λ v. every (λ b. ltb (write_bit v b val) 256) 8) 256

range_true : range_table true ≡ true
unfolding every write_bit
range_true = refl

range_false : range_table false ≡ true
unfolding every write_bit
range_false = refl

range : (val : Bool) → range_table val ≡ true
range true = range_true
range false = range_false

-- A written byte is a byte.
pub write_bit-lt : (val : Bool) (v b : ℕ) → v < 256 → b < 8 → write_bit v b val < 256
write_bit-lt val v b hv hb = ltb→lt _ 256 (every_sound _ 8 (every_sound _ 256 (range val) hv) hb)

zero_table : every (λ c. bool_eq (test_bit 0 c) false) 8 ≡ true
unfolding every test_bit
zero_table = refl

-- The zero byte has no bit.
pub test_bit-zero : (c : ℕ) → c < 8 → test_bit 0 c ≡ false
test_bit-zero c h = bool_eq_sound _ _ (every_sound _ 8 zero_table h)
