-- ===== src/Watched.antt =====
-- stremio/watched_bitfield/watched_bitfield.go: which videos of a list have been watched, with the
-- last watched video as an anchor. A video id is a text.
pub mod Video
pub mod Text
pub mod Resize
pub mod Survive
pub mod Next
pub mod Examples
use resolver_addon.BitField
use resolver_addon.BitField.{BitField8}
use resolver_addon.BitField.Codec.{Codec, Error, error, invalid_format}
use resolver_addon.BitField.Codec
use resolver_addon.Prelude.{
  ℕ, zero, suc, ◌+◌, ◌-◌, ◌<◌, Bool, true, false, ◌&&◌, List, [], ◌∷◌, ◌++◌, Option, none, some,
  Result, ok, err, ◌>>=◌, ltb, leb, ◌==◌, if◌then◌else◌, length, get_or, take,
}
use resolver_addon.Prelude.Bytes.{Bytes, codes, split, join, bytes_eq}
use resolver_addon.Prelude.Decimal.{itoa, atoi}
use resolver_addon.Prelude.Int.{ℤ, pos, negsuc, ◌+ℤ◌, ◌-ℤ◌}

pub record WatchedField : Type 0 where
  pub anchor_video : Bytes
  pub anchor_length : ℤ
  pub bit_field : BitField8

pub record WatchedBitField : Type 0 where
  pub bitfield : BitField8
  pub video_ids : List Bytes

-- slices.Index; `none` is -1
unfoldable pub index_of : List Bytes → Bytes → Option ℕ
index_of [] id = none
index_of (x ∷ xs) id =
    if bytes_eq x id then some 0 else elim (index_of xs id) [ none ↦ none | some i ↦ some (suc i) ]

-- max(i, 0) for an index that is -1 if it is missing
abbrev pub or_zero : Option ℕ → ℕ
or_zero none = 0
or_zero (some i) = i

-- NewWatchedFieldFromWatchedBitField
unfoldable pub to_field : WatchedBitField → WatchedField
to_field wb =
    let last_id = or_zero (BitField.last_index_of wb.bitfield true) in
    record {
      anchor_video =
          if ltb last_id (length wb.video_ids)
          then get_or wb.video_ids last_id []
          else codes "undefined";
      anchor_length = pos (last_id + 1);
      bit_field = wb.bitfield;
    }

-- `id_in_prev >= 0 && id_in_prev < bitfield.Length`: the index, if it is in range.
abbrev pub in_range : ℤ → ℕ → Option ℕ
in_range (pos k) len = if ltb k len then some k else none
in_range (negsuc k) len = none

abbrev pub copy_bit : BitField8 → BitField8 → ℕ → Option ℕ → BitField8
copy_bit resized bitfield i (some k) = BitField.set_bit resized i (BitField.get bitfield k)
copy_bit resized bitfield i none = resized

-- The loop over `video_ids`, with `n` rounds left from `i` on.
unfoldable pub rewrite_from : BitField8 → ℤ → ℕ → ℕ → BitField8 → BitField8
rewrite_from bitfield offset zero i resized = resized
rewrite_from bitfield offset (suc n) i resized =
    rewrite_from bitfield offset n (i + 1)
      (copy_bit resized bitfield i (in_range (pos i +ℤ offset) bitfield.len))

abbrev pub is_zero : ℤ → Bool
is_zero (pos n) = n == 0
is_zero (negsuc n) = false

-- The offset of the old anchor to where its video is now.
abbrev pub offset_of : ℤ → ℕ → ℤ
offset_of anchor_length idx = anchor_length -ℤ pos idx -ℤ pos 1

-- toWatchedBitField; it never returns an error
unfoldable pub realign : WatchedField → List Bytes → ℕ → WatchedBitField
unfolding rewrite_from
realign wf video_ids anchor_video_idx =
    let offset = offset_of wf.anchor_length anchor_video_idx in
    let bitfield = BitField.with_values wf.bit_field.values (length video_ids) in
    if is_zero offset then record { bitfield = bitfield; video_ids = video_ids } else record {
      bitfield =
          rewrite_from bitfield offset (length video_ids) 0 (BitField.new (length video_ids));
      video_ids = video_ids;
    }

unfoldable pub from_field : WatchedField → List Bytes → WatchedBitField
unfolding realign
from_field wf video_ids = elim (index_of video_ids wf.anchor_video) [
  | some idx ↦ realign wf video_ids idx
  | none ↦ record { bitfield = BitField.new (length video_ids); video_ids = video_ids }
]

unfoldable pub get_video : WatchedBitField → Bytes → Bool
get_video wbf id = elim (index_of wbf.video_ids id) [
  | none ↦ false
  | some i ↦ BitField.get wbf.bitfield i
]

unfoldable pub set_video : WatchedBitField → Bytes → Bool → WatchedBitField
set_video wbf id v = elim (index_of wbf.video_ids id) [
  | none ↦ wbf
  | some i ↦ record wbf { bitfield = BitField.set_bit wbf.bitfield i v }
]

-- `video_ids[idx]`, which panics out of range: `none`.
abbrev pub at : List Bytes → ℕ → Option Bytes
at ids i = if ltb i (length ids) then some (get_or ids i []) else none

-- `idx = len(video_ids) - 1`; of no videos that is -1, and the access panics
abbrev pub last_video : List Bytes → Option Bytes
last_video [] = none
last_video (x ∷ xs) = some (get_or (x ∷ xs) (length xs) [])

unfoldable pub first_unwatched : WatchedBitField → Option Bytes
first_unwatched wbf = elim (BitField.first_index_of wbf.bitfield false) [
  | none ↦ last_video wbf.video_ids
  | some i ↦ if leb (length wbf.video_ids) i then last_video wbf.video_ids else at wbf.video_ids i
]

-- "" where there is no next video
abbrev pub next_after : List Bytes → Option ℕ → Bytes
next_after ids none = []
next_after ids (some i) = if leb (length ids) (i + 1) then [] else get_or ids (i + 1) []

unfoldable pub next_unwatched : WatchedBitField → Bytes
next_unwatched wbf = next_after wbf.video_ids (BitField.last_index_of wbf.bitfield true)

-- The loop of NewWatchedBitFieldFromArray.
unfoldable pub fill_from : List Bool → ℕ → BitField8 → BitField8
fill_from [] i bf = bf
fill_from (v ∷ arr) i bf = fill_from arr (i + 1) (BitField.set_bit bf i v)

unfoldable pub from_array : List Bool → List Bytes → WatchedBitField
unfolding fill_from
from_array arr video_ids = record {
  bitfield = fill_from arr 0 (BitField.new (length video_ids));
  video_ids = video_ids;
}
