-- ===== src/Watched/Next.antt =====
-- Which video comes next, and what the length of a fresh bit field does to that.
use resolver_addon.BitField
use resolver_addon.BitField.{BitField8}
use resolver_addon.BitField.Access.{IsValid, get-set_bit, set_bit-IsValid, new-IsValid, get-new}
use resolver_addon.BitField.Search.{
  first_index_of-IsFirst, last_index_of-IsLast, IsFirst, IsLast, Misses,
}
use resolver_addon.Prelude.{
  ℕ, zero, suc, ◌+◌, ◌-◌, ◌≤◌, ◌<◌, ◌≡◌, refl, ◌∙◌, Bool, true, false, ◌&&◌, List, [], ◌∷◌, Option,
  none, some, arith, ltb, leb, ◌==◌, if◌then◌else◌, length, length-replicate, get_or, ◌/◌,
}
use resolver_addon.Prelude.Bytes.{Bytes}
use resolver_addon.Watched.{WatchedBitField, first_unwatched, next_unwatched, fill_from, from_array}

IsLast-unique :
    (bf : BitField8) (n i : ℕ) (o : Option ℕ)
    → i < n
    → BitField.get bf i ≡ true
    → Misses bf true (i + 1) n
    → IsLast bf true n o
    → o ≡ some i
IsLast-unique bf n i none h e m l = absurd (l i (omega arith) h e)
IsLast-unique bf n i (some k) h e m (hk, ek, mk) = ground (arith, m k, mk i)

IsFirst-unique :
    (bf : BitField8) (n i : ℕ) (o : Option ℕ)
    → i < n
    → BitField.get bf i ≡ false
    → Misses bf false 0 i
    → IsFirst bf false 0 n o
    → o ≡ some i
IsFirst-unique bf n i none h e m l = absurd (l i (omega arith) h e)
IsFirst-unique bf n i (some k) h e m (_, hk, ek, mk) = ground (arith, m k, mk i)

-- If a bit is the last one set below `Length`, the next video is the one behind its video, and
-- there is none, which is an empty id, where the list ends there.
pub next_unwatched_lem :
    (w : WatchedBitField) (i : ℕ)
    → i < w.bitfield.len
    → BitField.get w.bitfield i ≡ true
    → Misses w.bitfield true (i + 1) w.bitfield.len
    → next_unwatched w
      ≡ (if ltb (i + 1) (length w.video_ids) then get_or w.video_ids (i + 1) [] else [])
unfolding next_unwatched
next_unwatched_lem w i h e m =
    rw (IsLast-unique w.bitfield w.bitfield.len i _ h e m (last_index_of-IsLast w.bitfield true))
      (ground arith)

-- If a bit is the first clear one below `Length`, and its index is that of a video, that video is
-- the first unwatched one.
pub first_unwatched_lem :
    (w : WatchedBitField) (i : ℕ)
    → i < w.bitfield.len
    → i < length w.video_ids
    → BitField.get w.bitfield i ≡ false
    → Misses w.bitfield false 0 i
    → first_unwatched w ≡ some (get_or w.video_ids i [])
unfolding first_unwatched
first_unwatched_lem w i h hv e m =
    rw
      (
        IsFirst-unique w.bitfield w.bitfield.len i _ h e m
            (first_index_of-IsFirst w.bitfield false),
        first_unwatched,
      )
      (ground arith)

get_or-suc :
    (v : Bool) (arr : List Bool) (k : ℕ)
    → get_or (v ∷ arr) k false ≡ (if k == 0 then v else get_or arr (k - 1) false)
get_or-suc v arr zero = ground arith
get_or-suc v arr (suc k) = let e : suc k - 1 ≡ k = omega arith in rw e (ground arith)

get_or_past : (arr : List Bool) (k : ℕ) → length arr ≤ k → get_or arr k false ≡ false
get_or_past [] k h = refl
get_or_past (v ∷ arr) zero h = absurd (omega arith)
get_or_past (v ∷ arr) (suc k) h = get_or_past arr k (omega arith)

get-fill_from :
    (arr : List Bool) (i j : ℕ) (bf : BitField8)
    → IsValid bf
    → BitField.get (fill_from arr i bf) j
      ≡ (if leb i j && ltb j (i + length arr) then get_or arr (j - i) false else BitField.get bf j)
unfolding fill_from
get-fill_from [] i j bf h = ground arith
get-fill_from (v ∷ arr) i j bf h = ground (
  arith,
  get-fill_from arr (i + 1) j (BitField.set_bit bf i v) (set_bit-IsValid bf i v h),
  get-set_bit bf i j v h,
  get_or-suc v arr (j - i),
)

sub-zero : (j : ℕ) → j - 0 ≡ j
sub-zero j = omega arith

-- A field made from an array has the array's entries as its bits, and no other bit.
pub get-from_array :
    (arr : List Bool) (ids : List Bytes) (j : ℕ)
    → BitField.get (from_array arr ids).bitfield j ≡ get_or arr j false
unfolding from_array
get-from_array arr ids j =
    get-fill_from arr 0 j (BitField.new (length ids)) (new-IsValid (length ids))
    ∙ rw (get-new (length ids) j, sub-zero j) (ground (arith, get_or_past arr j))

len-set_bit-new :
    (n i : ℕ)
    → i / 8 < BitField.ceil8 n
    → (BitField.set_bit (BitField.new n) i true).len ≡ BitField.ceil8 n
unfolding BitField.set_bit BitField.new
len-set_bit-new n i k = ground (arith, length-replicate {A = ℕ} (BitField.ceil8 n) 0)

none_last :
    (bf : BitField8) (n : ℕ) (o : Option ℕ) → Misses bf true 0 n → IsLast bf true n o → o ≡ none
none_last bf n none m l = refl
none_last bf n (some k) m (hk, e, _) = absurd (m k (omega arith) hk e)

-- `Length` of a fresh bit field is its number of bytes, and a write within those bytes leaves it.
-- So when a bit is set there at an index from that number on, `Get` finds it, and `LastIndexOf`
-- finds none.
pub last_index_of-new :
    (n i : ℕ)
    → BitField.ceil8 n ≤ i
    → i / 8 < BitField.ceil8 n
    → (BitField.get (BitField.set_bit (BitField.new n) i true) i ≡ true)
      × (BitField.last_index_of (BitField.set_bit (BitField.new n) i true) true ≡ none)
last_index_of-new n i h k = (
  get-set_bit (BitField.new n) i i true (new-IsValid n) ∙ ground arith,
  none_last marked marked.len _ unseen (last_index_of-IsLast marked true),
)
  where
    marked : BitField8
    marked = BitField.set_bit (BitField.new n) i true

    unseen : Misses marked true 0 marked.len
    unseen j _ lt e = ground (
      arith,
      len-set_bit-new n i k,
      get-set_bit (BitField.new n) i j true (new-IsValid n),
      get-new n j,
    )
