-- ===== src/Watched/Resize.antt =====
-- `toWatchedBitField`: a saved field is laid over a list of videos that may have changed since.
use resolver_addon.BitField
use resolver_addon.BitField.{BitField8}
use resolver_addon.BitField.Access.{
  IsValid, get-set_bit, set_bit-IsValid, new-IsValid, get-new, get-with_values,
}
use resolver_addon.Prelude.{
  ℕ, zero, suc, ◌+◌, ◌<◌, ◌≡◌, ◌≢◌, refl, ==_iff, ◌∙◌, Bool, true, false, ◌&&◌, List, Option, none,
  some, arith, inl, inr, Bool-cases, ltb, leb, ◌==◌, if◌then◌else◌, length,
}
use resolver_addon.Prelude.Bytes.{Bytes}
use resolver_addon.Prelude.Int.{ℤ, pos, negsuc, ◌+ℤ◌}
use resolver_addon.Watched.{
  WatchedField, in_range, copy_bit, rewrite_from, realign, offset_of, is_zero,
}

-- The bit at an index, or another value where there is no index.
abbrev pub bit_or : BitField8 → Bool → Option ℕ → Bool
bit_or bf other (some k) = BitField.get bf k
bit_or bf other none = other

copy_bit-IsValid :
    (r bf : BitField8) (i : ℕ) (o : Option ℕ) → IsValid r → IsValid (copy_bit r bf i o)
copy_bit-IsValid r bf i (some k) h = set_bit-IsValid r i _ h
copy_bit-IsValid r bf i none h = h

get-copy_bit :
    (r bf : BitField8) (i j : ℕ) (o : Option ℕ)
    → IsValid r
    → BitField.get (copy_bit r bf i o) j
      ≡ (if i == j then bit_or bf (BitField.get r j) o else BitField.get r j)
get-copy_bit r bf i j (some k) h = get-set_bit r i j _ h
get-copy_bit r bf i j none h = ground arith

-- A round at `i` and the rounds from `i + 1` on are the rounds from `i` on.
shifted :
    (at : ℕ → Option ℕ) (bf : BitField8) (b : Bool) (n i j : ℕ)
    → (if leb (i + 1) j && ltb j (i + 1 + n)
        then bit_or bf (if i == j then bit_or bf b (at i) else b) (at j)
        else (if i == j then bit_or bf b (at i) else b))
      ≡ (if leb i j && ltb j (i + suc n) then bit_or bf b (at j) else b)
shifted at bf b n i j = elim (Bool-cases (i == j)) [
  | inl same ↦ let e : i ≡ j = (==_iff i j).0 same in rw e (ground arith)
  | inr other ↦ rw other (ground arith)
]

get-rewrite_from :
    (bf : BitField8) (off : ℤ) (n i j : ℕ) (r : BitField8)
    → IsValid r
    → BitField.get (rewrite_from bf off n i r) j ≡ (
        if leb i j && ltb j (i + n)
        then bit_or bf (BitField.get r j) (in_range (pos j +ℤ off) bf.len)
        else BitField.get r j)
unfolding rewrite_from
get-rewrite_from bf off zero i j r h = ground arith
get-rewrite_from bf off (suc n) i j r h =
    let o = in_range (pos i +ℤ off) bf.len in
    get-rewrite_from bf off n (i + 1) j (copy_bit r bf i o) (copy_bit-IsValid r bf i o h)
    ∙ rw (get-copy_bit r bf i j o h)
        (shifted (λ k. in_range (pos k +ℤ off) bf.len) bf (BitField.get r j) n i j)

zero_offset : (off : ℤ) (i : ℕ) → is_zero off ≡ true → pos i +ℤ off ≡ pos i
unfolding ◌+ℤ◌
zero_offset (pos n) i h = ground arith
zero_offset (negsuc n) i h = cc

len-with_values : (v : List ℕ) (n : ℕ) → n ≢ 0 → (BitField.with_values v n).len ≡ n
unfolding BitField.with_values
len-with_values v n h = ground arith

bit_or-with_values :
    (bf : BitField8) (n : ℕ) (o : Option ℕ)
    → bit_or (BitField.with_values bf.values n) false o ≡ bit_or bf false o
bit_or-with_values bf n none = refl
bit_or-with_values bf n (some k) = get-with_values bf n k

inside :
    (i n : ℕ) {a b : Bool} → i < n → a ≡ b → (if leb 0 i && ltb i (0 + n) then a else false) ≡ b
inside i n h e = ground arith

-- Each video has the bit that the saved field had at the index that the anchor's move gives it;
-- an index that is negative or past the list gives an unwatched video.
pub get-realign :
    (wf : WatchedField) (ids : List Bytes) (idx i : ℕ)
    → i < length ids
    → BitField.get (realign wf ids idx).bitfield i
      ≡ bit_or wf.bit_field false (in_range (pos i +ℤ offset_of wf.anchor_length idx) (length ids))
unfolding realign
get-realign wf ids idx i h =
    let off = offset_of wf.anchor_length idx in
    let bf = BitField.with_values wf.bit_field.values (length ids) in
    elim (Bool-cases (is_zero off)) [
      | inl still ↦
          rw (still, zero_offset off i still)
            (get-with_values wf.bit_field (length ids) i ∙ ground arith)
      | inr moved ↦ rw moved (
          get-rewrite_from bf off (length ids) 0 i (BitField.new (length ids))
            (new-IsValid (length ids))
          ∙ simp
              (
                get-new (length ids) i,
                len-with_values wf.bit_field.values (length ids) (omega arith),
              )
              (inside i (length ids) h (bit_or-with_values wf.bit_field (length ids) _)))
    ]
