-- ===== src/Sorter/Examples.antt =====
-- Tests of the sort of streams.
use resolver_addon.Prelude.Decimal.{atoi}
use resolver_addon.Prelude.Affix.{cut_prefix, contains}
use resolver_addon.Prelude.{◌≡◌, refl, Bool, true, false, List, [], ◌∷◌, All, length, ℕ}
use resolver_addon.Prelude.Bytes.{Bytes, codes, bytes_eq, split}
use resolver_addon.Prelude.Int.{ℤ, pos}
use resolver_addon.Sorter.Config.{parse_sort_config}
use resolver_addon.Sorter.Order.{config_or_default, sort_by, sort_streams}
use resolver_addon.Sorter.Ordered.{IsSortable, comes_before, sort_streams-IsStableSort}
use resolver_addon.Sorter.Rank.{StreamSortable, StreamSortableField, quality_rank, resolution_rank}
use resolver_addon.Sorter.Sorted.{IsStableSort}

abbrev stream : Bytes → Bytes → StreamSortable
stream resolution quality = record {
  is_sortable = true;
  quality = quality;
  resolution = resolution;
  size = [];
  hdr = [];
}

abbrev itself : StreamSortable → StreamSortable
itself s = s

abbrev no_size : Bytes → ℤ
no_size s = pos 0

abbrev low : StreamSortable
low = stream (codes "720p") (codes "HDTV")

abbrev web : StreamSortable
web = stream (codes "1080p") (codes "WEB-DL")

abbrev remux : StreamSortable
remux = stream (codes "1080p") (codes "BluRay REMUX")

abbrev four : StreamSortable
four = stream (codes "4k") (codes "WEBRip")

quality_test : quality_rank (codes "WEB-DL") ≡ 89
unfolding quality_rank resolver_addon.Prelude.Affix.contains resolver_addon.Prelude.Affix.cut_prefix
quality_test = refl

resolution_test : resolution_rank (codes "4k") ≡ pos 4000
unfolding resolution_rank resolver_addon.Prelude.Decimal.atoi
resolution_test = refl

config_test :
    parse_sort_config (codes " -size , x,hdr")
    ≡ record { field = StreamSortableField.size; desc = true }
      ∷ record { field = StreamSortableField.hdr; desc = false }
      ∷ []
unfolding parse_sort_config resolver_addon.Prelude.Bytes.split resolver_addon.Prelude.Bytes.bytes_eq
    resolver_addon.Prelude.Affix.cut_prefix
config_test = refl

sort_test :
    sort_streams no_size itself (low ∷ web ∷ remux ∷ four ∷ []) (codes "-resolution")
    ≡ four ∷ web ∷ remux ∷ low ∷ []
unfolding sort_streams parse_sort_config resolver_addon.Prelude.Bytes.split
    resolver_addon.Prelude.Bytes.bytes_eq resolver_addon.Prelude.Affix.cut_prefix
    resolver_addon.Sorter.Stable.sort_stable resolver_addon.Sorter.Order.less
    resolver_addon.Sorter.Rank.field_rank resolver_addon.Prelude.Decimal.atoi
sort_test = refl

sort_streams-IsStableSort_example :
    IsStableSort
      (IsSortable no_size itself)
      (comes_before no_size itself (parse_sort_config (config_or_default no_size itself [])))
      (low ∷ web ∷ remux ∷ [])
      (sort_streams no_size itself (low ∷ web ∷ remux ∷ []) [])
sort_streams-IsStableSort_example =
    sort_streams-IsStableSort no_size itself (low ∷ web ∷ remux ∷ []) [] (refl, (refl, (refl, tt)))

-- Two streams that cannot be sorted change places.
abbrev raw : Bytes → StreamSortable
raw size = record { is_sortable = false; quality = []; resolution = []; size = size; hdr = [] }

raw_turned :
    sort_streams no_size itself (raw (codes "1") ∷ raw (codes "2") ∷ low ∷ []) (codes "size")
    ≡ low ∷ raw (codes "2") ∷ raw (codes "1") ∷ []
unfolding sort_streams parse_sort_config resolver_addon.Prelude.Bytes.split
    resolver_addon.Prelude.Bytes.bytes_eq resolver_addon.Prelude.Affix.cut_prefix
    resolver_addon.Sorter.Stable.sort_stable resolver_addon.Sorter.Order.less
raw_turned = refl
