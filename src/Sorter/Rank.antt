-- ===== src/Sorter/Rank.antt =====
-- The ranks of internal/stremio/transformer/stream_sorter.go. `to_bytes` is util.ToBytes, which calls a
-- package for sizes.
use resolver_addon.Prelude.{
  ℕ, ◌+◌, ◌*◌, ◌-◌, ◌%◌, ◌^◌, Bool, [], ◌∷◌, Option, none, some, ltb, ◌==◌, if◌then◌else◌, length,
}
use resolver_addon.Prelude.Affix.{contains, to_lower}
use resolver_addon.Prelude.Bytes.{Bytes, codes}
use resolver_addon.Prelude.Decimal.{atoi}
use resolver_addon.Prelude.Int.{ℤ, pos, negsuc}

-- What the sorter asks of a stream (StreamSortable).
pub record StreamSortable : Type 0 where
  pub is_sortable : Bool
  pub quality : Bytes
  pub resolution : Bytes
  pub size : Bytes
  pub hdr : Bytes

pub data StreamSortableField : Type 0 where
  resolution quality size hdr : StreamSortableField

-- getQualityRank
unfoldable pub quality_rank : Bytes → ℕ
quality_rank input =
    let quality = to_lower input in
    if contains quality (codes "remux")
    then 100
    else if contains quality (codes "mux")
    then 99
    else if contains quality (codes "bluray")
    then 98
    else if contains quality (codes "br")
    then 96
    else if contains quality (codes "bd")
    then 94
    else if contains quality (codes "uhd")
    then 92
    else if contains quality (codes "web")
    then (if contains quality (codes "dl")
        then 89
        else if contains quality (codes "rip")
        then 85
        else 80)
    else if contains quality (codes "hd")
    then (if contains quality (codes "rip") then 79 else 75)
    else if contains quality (codes "dvd")
    then 60
    else if contains quality (codes "sat")
    then 59
    else if contains quality (codes "tv")
    then 57
    else if contains quality (codes "ppv")
    then 55
    else if contains quality (codes "cam")
    then 40
    else if contains quality (codes "tele")
    then 30
    else if contains quality (codes "scr")
    then 20
    else 0

-- input[:len(input)-1], if the last byte is `b`
unfoldable pub cut_last : ℕ → Bytes → Option Bytes
cut_last b [] = none
cut_last b (c ∷ []) = if c == b then some [] else none
cut_last b (c ∷ d ∷ s) = elim (cut_last b (d ∷ s)) [ none ↦ none | some s' ↦ some (c ∷ s') ]

-- The value of an int64.
abbrev pub wrap : ℤ → ℤ
wrap (pos n) = let m = n % 2 ^ 64 in if ltb m (2 ^ 63) then pos m else negsuc (2 ^ 64 - m - 1)
wrap (negsuc n) = let m = n % 2 ^ 64 in if ltb m (2 ^ 63) then negsuc m else pos (2 ^ 64 - m - 1)

-- resolution * 1000
abbrev pub thousand : ℤ → ℤ
thousand (pos n) = wrap (pos (n * 1000))
thousand (negsuc n) = wrap (negsuc (n * 1000 + 999))

abbrev pub atoi_of : Option Bytes → Option ℤ
atoi_of none = none
atoi_of (some s) = atoi s

abbrev pub or_k : Option ℤ → Option ℤ → ℤ
or_k (some p) k = p
or_k none (some k) = thousand k
or_k none none = pos 0

-- getResolutionRank
unfoldable pub resolution_rank : Bytes → ℤ
unfolding cut_last
resolution_rank input = or_k (atoi_of (cut_last b'p' input)) (atoi_of (cut_last b'k' input))

-- getHDRRank
abbrev pub hdr_rank : Bytes → ℤ
hdr_rank input = pos (length input)

-- getFieldRank
unfoldable pub field_rank : (Bytes → ℤ) → StreamSortable → StreamSortableField → ℤ
unfolding quality_rank resolution_rank
field_rank to_bytes str resolution = resolution_rank str.resolution
field_rank to_bytes str quality = pos (quality_rank str.quality)
field_rank to_bytes str size = to_bytes str.size
field_rank to_bytes str hdr = hdr_rank str.hdr
