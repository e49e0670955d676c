-- ===== src/BitField.antt =====
-- stremio/watched_bitfield/bitfield8.go: a bit field over bytes. An index is a number: the code is
-- called with indices that are not negative. A byte is a number below 256, and the mask operations
-- are those of the native numbers.
pub mod Bits
pub mod Access
pub mod Search
pub mod Codec
pub mod Examples
use Prim.Native.Nat.{bit_and, bit_or, bit_xor}
use resolver_addon.Prelude.{
  ℕ, zero, suc, ◌+◌, ◌-◌, ◌*◌, ◌/◌, ◌%◌, ◌^◌, Bool, true, false, not, List, ◌++◌, Option, none,
  some, ltb, leb, ◌==◌, if◌then◌else◌, length, get_or, set, replicate,
}

-- `Length` is a field of its own, and is not always eight times the number of bytes.
pub record BitField8 : Type 0 where
  pub len : ℕ
  pub values : List ℕ

-- v >> k
abbrev pub shr : ℕ → ℕ → ℕ
shr v k = v / 2 ^ k

-- (v >> bit) & 1 != 0
unfoldable pub test_bit : ℕ → ℕ → Bool
test_bit v bit = not (bit_and (shr v bit) 1 == 0)

-- v |= mask, v &^= mask
unfoldable pub write_bit : ℕ → ℕ → Bool → ℕ
write_bit v bit val =
    let mask = 2 ^ bit in if val then bit_or v mask else bit_and v (bit_xor 255 mask)

unfoldable pub get : BitField8 → ℕ → Bool
get bf i =
    let index = i / 8 in
    let bit = i % 8 in
    if leb (length bf.values) index then false else test_bit (get_or bf.values index 0) bit

-- The slice grows to hold the byte, and then `Length` covers all of it.
unfoldable pub grow : BitField8 → ℕ → BitField8
grow bf index =
    let values = bf.values ++ replicate (index - length bf.values + 1) 0 in
    if leb (length bf.values) index then record { len = length values * 8; values = values } else bf

unfoldable pub set_bit : BitField8 → ℕ → Bool → BitField8
unfolding grow
set_bit bf i val =
    let index = i / 8 in
    let bf' = grow bf index in
    record bf' { values = set bf'.values index (write_bit (get_or bf'.values index 0) (i % 8) val) }

abbrev pub bool_eq : Bool → Bool → Bool
bool_eq true b = b
bool_eq false b = not b

-- The loop of `FirstIndexOf`, with `n` rounds left from `i` on; `none` is -1.
unfoldable pub first_from : BitField8 → Bool → ℕ → ℕ → Option ℕ
first_from bf val zero i = none
first_from bf val (suc n) i =
    let rest = first_from bf val n (i + 1) in if bool_eq (get bf i) val then some i else rest

unfoldable pub first_index_of : BitField8 → Bool → Option ℕ
unfolding first_from
first_index_of bf val = first_from bf val bf.len 0

-- The loop of `LastIndexOf`, with the indices below `n` left.
unfoldable pub last_below : BitField8 → Bool → ℕ → Option ℕ
last_below bf val zero = none
last_below bf val (suc n) =
    let rest = last_below bf val n in if bool_eq (get bf n) val then some n else rest

unfoldable pub last_index_of : BitField8 → Bool → Option ℕ
unfolding last_below
last_index_of bf val = last_below bf val bf.len

-- int(math.Ceil(float64(n) / 8)); the float is exact for every length below 2^53.
abbrev pub ceil8 : ℕ → ℕ
ceil8 n = (n + 7) / 8

-- `Length` is set to the number of bytes.
unfoldable pub new : ℕ → BitField8
new length = let length = ceil8 length in record { len = length; values = replicate length 0 }

-- The bytes, filled up with zeros to at least `bytes` of them.
unfoldable pub pad_to : List ℕ → ℕ → List ℕ
pad_to values bytes =
    if ltb (length values) bytes then values ++ replicate (bytes - length values) 0 else values

-- A length of 0 stands for all bits of the bytes.
unfoldable pub with_values : List ℕ → ℕ → BitField8
unfolding pad_to
with_values values len =
    let len = if len == 0 then length values * 8 else len in
    record { len = len; values = pad_to values (ceil8 len) }
