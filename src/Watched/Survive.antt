-- ===== src/Watched/Survive.antt =====
-- What becomes of a saved field when videos have been added to the list.
use resolver_addon.BitField
use resolver_addon.BitField.Access.{IsValid, get-with_values}
use resolver_addon.BitField.Codec.{Codec}
use resolver_addon.BitField.Search.{last_index_of-IsLast, IsLast}
use resolver_addon.Prelude.{
  ℕ, ◌+◌, ◌-◌, ◌<◌, ◌^◌, ◌≡◌, ◌∙◌, ap, true, false, List, [], ◌++◌, Option, none, some, ok, arith,
  ltb, lt→ltb, if◌then◌else◌, length, get_or, length-append, get_or-append,
}
use resolver_addon.Prelude.Bytes.{Bytes}
use resolver_addon.Prelude.Int.{pos, negsuc, ◌+ℤ◌, int_laws}
use resolver_addon.Watched.{
  WatchedField, WatchedBitField, to_field, from_field, realign, offset_of, in_range, index_of,
  or_zero,
}
use resolver_addon.Watched.Resize.{get-realign, bit_or}
use resolver_addon.Watched.Text
use resolver_addon.Watched.Text.{reread}
use resolver_addon.Watched.Video.{IsDistinct, index_of-get_or}

-- The index of the anchor.
abbrev pub last_id : WatchedBitField → ℕ
last_id w = or_zero (BitField.last_index_of w.bitfield true)

shift_back : (p i l : ℕ) → pos (p + i) +ℤ offset_of (pos (l + 1)) (p + l) ≡ pos i
shift_back p i l = omega int_laws

shift_before : (p i l : ℕ) → i < p → pos i +ℤ offset_of (pos (l + 1)) (p + l) ≡ negsuc (p - i - 1)
shift_before p i l h = omega int_laws

last_id-IsInt : (w : WatchedBitField) → w.bitfield.len < 2 ^ 63 → last_id w + 1 < 2 ^ 63
last_id-IsInt w h =
    in_int (BitField.last_index_of w.bitfield true) (last_index_of-IsLast w.bitfield true)
  where
    in_int : (o : Option ℕ) → IsLast w.bitfield true w.bitfield.len o → or_zero o + 1 < 2 ^ 63
    in_int none l = omega arith
    in_int (some i) l = omega (arith, l.0)

from_field-some :
    (wf : WatchedField) (ids : List Bytes) (idx : ℕ)
    → index_of ids wf.anchor_video ≡ some idx
    → from_field wf ids ≡ realign wf ids idx
unfolding from_field
from_field-some wf ids idx e = rw (e, from_field)

module _ (w : WatchedBitField) (pre post : List Bytes) where
  abbrev pub grown : List Bytes
  grown = pre ++ (w.video_ids ++ post)

  inside :
      (i n : ℕ)
      → i < n
      → bit_or (BitField.with_values w.bitfield.values 0) false (in_range (pos i) n)
        ≡ BitField.get (BitField.with_values w.bitfield.values 0) i
  inside i n h = rw (lt→ltb i n h)

  shifted_in :
      (x : Bytes) (k : ℕ)
      → k < length w.video_ids
      → get_or (w.video_ids ++ post) k []
        ≡ (if ltb k (length w.video_ids) then get_or w.video_ids k [] else x)
      → (if ltb (length pre + k) (length pre)
          then get_or pre (length pre + k) []
          else get_or (w.video_ids ++ post) (length pre + k - length pre) [])
        ≡ get_or w.video_ids k []
  shifted_in x k h e =
      let back : length pre + k - length pre ≡ k = omega arith in rw back (ground arith)

  anchor_found :
      last_id w < length w.video_ids
      → IsDistinct grown
      → index_of grown (to_field w).anchor_video ≡ some (length pre + last_id w)
  unfolding to_field
  anchor_found h d =
      let k = length pre + last_id w in
      let long : length grown ≡ length pre + (length w.video_ids + length post) =
        omega (arith, length-append pre (w.video_ids ++ post), length-append w.video_ids post) in
      let here : get_or grown k [] ≡ get_or w.video_ids (last_id w) [] =
        get_or-append pre (w.video_ids ++ post) k []
        ∙ shifted_in _ (last_id w) h (get_or-append w.video_ids post (last_id w) []) in
      rw (lt→ltb _ _ h) (rw (← here) (index_of-get_or grown k d (omega arith)))

  -- What is read back.
  abbrev result : WatchedBitField
  result = realign (reread (to_field w)) grown (length pre + last_id w)

  video_ids-result : result.video_ids ≡ grown
  unfolding realign
  video_ids-result = ground arith

  from_string-result :
      (codec : Codec) {text : Bytes}
      → IsValid w.bitfield
      → w.bitfield.len < 2 ^ 63
      → last_id w < length w.video_ids
      → IsDistinct grown
      → Text.marshal_bits codec w ≡ ok text
      → Text.from_string codec text grown ≡ ok result
  unfolding Text.marshal_bits Text.from_string to_field
  from_string-result codec {text} valid fits h d e =
      rw (Text.unmarshal-marshal codec (to_field w) valid (last_id-IsInt w fits) e)
        (ap ok (from_field-some (reread (to_field w)) grown _ (anchor_found h d)))

  old_bits :
      last_id w < length w.video_ids
      → (i : ℕ) → i < length w.video_ids
      → BitField.get result.bitfield (length pre + i) ≡ BitField.get w.bitfield i
  unfolding to_field
  old_bits h i hi =
      let long : length grown ≡ length pre + (length w.video_ids + length post) =
        omega (arith, length-append pre (w.video_ids ++ post), length-append w.video_ids post) in
      get-realign (reread (to_field w)) grown (length pre + last_id w) (length pre + i)
        (omega arith)
      ∙ rw (shift_back (length pre) i (last_id w))
          (inside i (length grown) (omega arith) ∙ get-with_values w.bitfield 0 i)

  new_bits : (i : ℕ) → i < length pre → BitField.get result.bitfield i ≡ false
  unfolding to_field
  new_bits i hi =
      let long : length grown ≡ length pre + (length w.video_ids + length post) =
        omega (arith, length-append pre (w.video_ids ++ post), length-append w.video_ids post) in
      get-realign (reread (to_field w)) grown (length pre + last_id w) i (omega arith)
      ∙ rw (shift_before (length pre) i (last_id w) hi)

  -- A field that was saved is read over a list that has new videos in front of the old ones and
  -- behind them. Every old video is then watched exactly if it was, and no video in front is.
  -- Conditions: the field is well formed, its length is below 2^63, its anchor is a video of the
  -- old list, no id stands twice in the new one, and the field could be written.
  pub from_string-marshal_bits :
      (codec : Codec) {text : Bytes}
      → IsValid w.bitfield
      → w.bitfield.len < 2 ^ 63
      → last_id w < length w.video_ids
      → IsDistinct grown
      → Text.marshal_bits codec w ≡ ok text
      → (r : WatchedBitField) × (Text.from_string codec text grown ≡ ok r)
        × (r.video_ids ≡ grown)
        × ((i : ℕ)
            → i < length w.video_ids
            → BitField.get r.bitfield (length pre + i) ≡ BitField.get w.bitfield i)
        × ((i : ℕ) → i < length pre → BitField.get r.bitfield i ≡ false)
  unfolding Text.marshal_bits Text.from_string
  from_string-marshal_bits codec {text} valid fits h d e =
      (result, from_string-result codec valid fits h d e, video_ids-result, old_bits h, new_bits)
