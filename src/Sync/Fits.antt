-- ===== src/Sync/Fits.antt =====
-- The watched field of a list of videos reaches to the end of the list and no further.
use mathlib.Core.Path.{subst}
use resolver_addon.BitField
use resolver_addon.BitField.{BitField8}
use resolver_addon.BitField.Access.{IsValid, set_bit-IsValid, new-IsValid, with_values-IsValid}
use resolver_addon.BitField.Codec
use resolver_addon.BitField.Codec.{Codec, Error}
use resolver_addon.Prelude.{
  ℕ, zero, suc, ◌+◌, ◌*◌, ◌/◌, ◌%◌, get_or, ◌≤◌, ◌<◌, ◌≡◌, refl, Bool, true, false, List, Option,
  none, some, Result, ok, err, ◌>>=◌, >>=-eq-ok, arith, inl, inr, Bool-cases, Option-cases,
  if◌then◌else◌, length, length-replicate, length-set,
}
use resolver_addon.Prelude.Bytes.{Bytes, join}
use resolver_addon.Prelude.Decimal.{atoi}
use resolver_addon.Prelude.Int.{ℤ}
use resolver_addon.Watched.{
  WatchedField, WatchedBitField, copy_bit, rewrite_from, realign, from_field, index_of, offset_of,
  is_zero,
}
use resolver_addon.Watched.Text

pub record Fits (n : ℕ) (bf : BitField8) : Type 0 where
  pub valid : IsValid bf
  pub within : bf.len ≤ n
  pub reaches : n ≤ length bf.values * 8

new-Fits : (n : ℕ) → Fits n (BitField.new n)
unfolding BitField.new
new-Fits n = record {
  valid = new-IsValid n;
  within = omega arith;
  reaches = omega (arith, length-replicate {A = ℕ} (BitField.ceil8 n) 0);
}

with_values-Fits :
    (bf : BitField8) (n : ℕ) → 0 < n → IsValid bf → Fits n (BitField.with_values bf.values n)
unfolding BitField.with_values
with_values-Fits bf n h v =
    let v' = with_values-IsValid bf.values n v.bytes in
    record { valid = v'; within = ground arith; reaches = ground (arith, v'.covered) }

pub set_bit-Fits :
    (n : ℕ) (bf : BitField8) (i : ℕ) (val : Bool)
    → i < n
    → Fits n bf
    → Fits n (BitField.set_bit bf i val)
unfolding BitField.set_bit BitField.grow
set_bit-Fits n bf i val lt h = record {
  valid = set_bit-IsValid bf i val h.valid;
  within = ground (arith, h.within, h.reaches);
  reaches = ground (
    arith,
    h.reaches,
    length-set bf.values (i / 8) (BitField.write_bit (get_or bf.values (i / 8) 0) (i % 8) val),
  );
}

copy_bit-Fits :
    (n : ℕ) (r bf : BitField8) (i : ℕ) (o : Option ℕ)
    → i < n
    → Fits n r
    → Fits n (copy_bit r bf i o)
copy_bit-Fits n r bf i none lt h = h
copy_bit-Fits n r bf i (some k) lt h = set_bit-Fits n r i _ lt h

rewrite_from-Fits :
    (n : ℕ) (bf : BitField8) (off : ℤ) (m i : ℕ) (r : BitField8)
    → i + m ≤ n
    → Fits n r
    → Fits n (rewrite_from bf off m i r)
unfolding rewrite_from
rewrite_from-Fits n bf off zero i r le h = h
rewrite_from-Fits n bf off (suc m) i r le h =
    rewrite_from-Fits n bf off m (i + 1) _ (omega arith) (copy_bit-Fits n r bf i _ (omega arith) h)

-- The field of a list of videos.
abbrev pub IsFieldOf : List Bytes → WatchedBitField → Type 0
IsFieldOf ids w = (w.video_ids ≡ ids) × Fits (length ids) w.bitfield

realign-IsFieldOf :
    (wf : WatchedField) (ids : List Bytes) (idx : ℕ)
    → 0 < length ids
    → IsValid wf.bit_field
    → IsFieldOf ids (realign wf ids idx)
unfolding realign
realign-IsFieldOf wf ids idx h v = elim (Bool-cases (is_zero (offset_of wf.anchor_length idx))) [
  | inl same ↦ rw same (refl, with_values-Fits wf.bit_field (length ids) h v)
  | inr moved ↦ rw moved (
    refl,
    rewrite_from-Fits (length ids) (BitField.with_values wf.bit_field.values (length ids)) _
        (length ids) 0 _ (omega arith) (new-Fits (length ids)),
  )
]

from_field-IsFieldOf :
    (wf : WatchedField) (ids : List Bytes)
    → 0 < length ids
    → IsValid wf.bit_field
    → IsFieldOf ids (from_field wf ids)
unfolding from_field
from_field-IsFieldOf wf ids h v = elim (Option-cases (index_of ids wf.anchor_video)) [
  | inl gone ↦ rw (gone, from_field) (refl, new-Fits (length ids))
  | inr (idx, found) ↦ rw (found, from_field) (realign-IsFieldOf wf ids idx h v)
]

pub fresh-IsFieldOf :
    (ids : List Bytes)
    → IsFieldOf ids (record { bitfield = BitField.new (length ids); video_ids = ids })
fresh-IsFieldOf ids = (refl, new-Fits (length ids))

if_ok :
    {A : Type 0} (b : Bool) (e : Error) (r : Result Error A) (a : A)
    → (if b then err e else r) ≡ ok a
    → r ≡ ok a
if_ok true e r a h = ground arith
if_ok false e r a h = h

abbrev field_of : List Bytes → ℤ → BitField8 → Result Error WatchedField
field_of cs n bf = ok (record { anchor_video = join cs b':'; anchor_length = n; bit_field = bf })

module _ (codec : Codec) where
  read_parts-IsValid :
      (cs : List Bytes) (a b : Bytes) {wf : WatchedField}
      → Text.read_parts codec cs a b ≡ ok wf
      → IsValid wf.bit_field
  unfolding Text.read_parts
  read_parts-IsValid cs a b {wf} e =
      let (n, _, e₁) =
        >>=-eq-ok (Text.anchor_length_of (atoi a))
          (λ n. Codec.unmarshal codec b 0 >>= field_of cs n) e in
      let (bf, e₂, e₃) = >>=-eq-ok (Codec.unmarshal codec b 0) (field_of cs n) e₁ in
      let q : bf ≡ wf.bit_field = cc in subst IsValid q (Codec.unmarshal-IsValid codec b 0 e₂)

  unmarshal-IsValid :
      (text : Bytes) {wf : WatchedField} → Text.unmarshal codec text ≡ ok wf → IsValid wf.bit_field
  unfolding Text.unmarshal Text.unmarshal_parts
  unmarshal-IsValid text {wf} e = read_parts-IsValid _ _ _ (if_ok _ _ _ wf e)

  -- What is read of a text over a list of videos is a field of that list.
  pub from_string-IsFieldOf :
      (text : Bytes) (ids : List Bytes) {w : WatchedBitField}
      → 0 < length ids
      → Text.from_string codec text ids ≡ ok w
      → IsFieldOf ids w
  unfolding Text.from_string
  from_string-IsFieldOf text ids {w} h e =
      let (wf, e₁, e₂) = >>=-eq-ok (Text.unmarshal codec text) _ e in
      let q : from_field wf ids ≡ w = cc in
      subst (IsFieldOf ids) q (from_field-IsFieldOf wf ids h (unmarshal-IsValid text e₁))
