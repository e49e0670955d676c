-- ===== src/Watched/Examples.antt =====
-- Runs of a watched field over a series of three episodes.
use mathlib.Core.Path.{subst}
use resolver_addon.BitField
use resolver_addon.BitField.{BitField8}
use resolver_addon.BitField.Codec
use resolver_addon.BitField.Codec.{Codec, Error, InflateError}
use resolver_addon.BitField.Search.{
  Misses, IsLast, IsFirst, last_index_of-IsLast, first_index_of-IsFirst,
}
use resolver_addon.Prelude.{
  ℕ, ◌+◌, ◌-◌, ◌%◌, ◌<◌, ◌≡◌, refl, true, false, List, [], ◌∷◌, map, some, Result, ok, arith, All,
  ap,
}
use resolver_addon.Prelude.Bytes.{Bytes, codes, Lacks, bytes_eq}
use resolver_addon.Prelude.Int.{pos, ◌+ℤ◌, ◌-ℤ◌}
use resolver_addon.Prelude.Decimal.{itoa}
use resolver_addon.Watched.{
  to_field, index_of, WatchedField, WatchedBitField, first_unwatched, set_video, realign,
}
use resolver_addon.Watched.Resize.{get-realign}
use resolver_addon.Watched.Survive.{from_string-marshal_bits, grown, last_id}
use resolver_addon.Watched.Text
use resolver_addon.Watched.Text.{reread}

-- A codec that meets the laws: every byte is moved past the colon, and back.
abbrev shift_up : Bytes → Bytes
shift_up = map (λ c. c + 59)

abbrev shift_down : Bytes → Bytes
shift_down = map (λ c. c - 59)

abbrev low_bytes : Bytes → Bytes
low_bytes = map (λ c. c % 256)

pub down-up : (b : Bytes) → shift_down (shift_up b) ≡ b
down-up [] = refl
down-up (c ∷ b) = let e : c + 59 - 59 ≡ c = omega arith in cc (e, down-up b)

low_bytes_same : (b : Bytes) → All (λ c. c < 256) b → low_bytes b ≡ b
low_bytes_same [] h = refl
low_bytes_same (c ∷ b) h = let e : c % 256 ≡ c = omega arith in cc (e, low_bytes_same b h.1)

low_bytes-bytes : (b : Bytes) → All (λ c. c < 256) (low_bytes b)
low_bytes-bytes [] = tt
low_bytes-bytes (c ∷ b) = (omega arith, low_bytes-bytes b)

pub up-Lacks : (b : Bytes) → Lacks b':' (shift_up b)
up-Lacks [] = tt
up-Lacks (c ∷ b) = (omega arith, up-Lacks b)

pub inflate_up :
    (v z : Bytes)
    → All (λ c. c < 256) v
    → ◌≡◌ {A = Result Error Bytes} (ok v) (ok z)
    → ◌≡◌ {A = Result InflateError Bytes} (ok (low_bytes z)) (ok v)
inflate_up v z h e = let q : v ≡ z = cc in rw (← q) (ap ok (low_bytes_same v h))

pub inflate_bytes :
    (z v : Bytes)
    → ◌≡◌ {A = Result InflateError Bytes} (ok (low_bytes z)) (ok v)
    → All (λ c. c < 256) v
inflate_bytes z v e =
    let q : low_bytes z ≡ v = cc in subst (All (λ c. c < 256)) q (low_bytes-bytes z)

abbrev pub codec : Codec
codec = record {
  deflate = λ v. ok v;
  inflate = λ z. ok (low_bytes z);
  encode = shift_up;
  decode = λ b. some (shift_down b);
  decode-encode = λ b. ap some (down-up b);
  inflate-deflate = inflate_up;
  inflate-bytes = inflate_bytes;
  encode-Lacks = up-Lacks;
}

-- The first two of three episodes are watched.
abbrev pub episodes : List Bytes
episodes = codes "s:1" ∷ codes "s:2" ∷ codes "s:3" ∷ []

abbrev season : WatchedBitField
season = record { bitfield = record { len = 8; values = 3 ∷ [] }; video_ids = episodes }

abbrev pub saved : Bytes
saved = codes "s:2:2:>"

season-saved : Text.marshal_bits codec season ≡ ok saved
unfolding Text.marshal_bits Text.marshal Codec.marshal to_field BitField.last_index_of BitField.get
    BitField.test_bit itoa
season-saved = refl

abbrev specials : List Bytes
specials = codes "s:0" ∷ []

abbrev finale : List Bytes
finale = codes "s:4" ∷ []

season-last_id : last_id season ≡ 1
unfolding BitField.last_index_of BitField.get BitField.test_bit
season-last_id = refl

from_string-marshal_bits_example :
    (r : WatchedBitField) × (Text.from_string codec saved (grown season specials finale) ≡ ok r)
    × (r.video_ids ≡ grown season specials finale)
    × ((i : ℕ) → i < 3 → BitField.get r.bitfield (1 + i) ≡ BitField.get season.bitfield i)
    × ((i : ℕ) → i < 1 → BitField.get r.bitfield i ≡ false)
unfolding bytes_eq
from_string-marshal_bits_example =
    from_string-marshal_bits season specials finale codec (omega arith) (omega arith)
      (omega (arith, season-last_id)) (ground arith) season-saved

abbrev field : WatchedField
field = record { anchor_video = codes "s:2"; anchor_length = pos 2; bit_field = season.bitfield }

field-saved : Text.marshal codec field ≡ ok saved
unfolding Text.marshal Codec.marshal itoa
field-saved = refl

unmarshal-marshal_example : Text.unmarshal codec saved ≡ ok (reread field)
unmarshal-marshal_example =
    Text.unmarshal-marshal codec field (omega arith) (omega arith) field-saved

-- The anchor has moved one place back.
get-realign_example :
    BitField.get (realign field (grown season specials finale) 2).bitfield 2
    ≡ BitField.get season.bitfield 1
unfolding BitField.get BitField.test_bit ◌+ℤ◌ ◌-ℤ◌
get-realign_example = get-realign field (grown season specials finale) 2 2 (omega arith)

season_last : BitField.last_index_of season.bitfield true ≡ some 1
unfolding BitField.last_index_of BitField.get BitField.test_bit
season_last = refl

season_first : BitField.first_index_of season.bitfield false ≡ some 2
unfolding BitField.first_index_of BitField.get BitField.test_bit
season_first = refl

tail_clear : Misses season.bitfield true 2 8
tail_clear =
    (subst (IsLast season.bitfield true 8) season_last
      (last_index_of-IsLast season.bitfield true)).2

head_set : Misses season.bitfield false 0 2
head_set =
    (subst (IsFirst season.bitfield false 0 8) season_first
      (first_index_of-IsFirst season.bitfield false)).3

abbrev eight_episodes : List Bytes
eight_episodes =
    codes "s:1"
    ∷ codes "s:2"
    ∷ codes "s:3"
    ∷ codes "s:4"
    ∷ codes "s:5"
    ∷ codes "s:6"
    ∷ codes "s:7"
    ∷ codes "s:8"
    ∷ []

abbrev fresh_season : WatchedBitField
fresh_season = record { bitfield = BitField.new 8; video_ids = eight_episodes }

-- The first of eight episodes is marked in a fresh field: the first unwatched one is the last.
fresh_first_unwatched :
    first_unwatched (set_video fresh_season (codes "s:1") true) ≡ some (codes "s:8")
unfolding first_unwatched set_video BitField.first_index_of index_of bytes_eq BitField.set_bit
    BitField.new BitField.get BitField.test_bit BitField.write_bit
fresh_first_unwatched = refl
