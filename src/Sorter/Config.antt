-- ===== src/Sorter/Config.antt =====
-- `parseSortConfig` of internal/stremio/transformer/stream_sorter.go: the fields to sort by, in their order.
use resolver_addon.Prelude.{ℕ, Bool, ◌||◌, List, [], ◌∷◌, Option, none, some, ◌==◌, if◌then◌else◌}
use resolver_addon.Prelude.Affix.{has_prefix, trim_prefix}
use resolver_addon.Prelude.Bytes.{Bytes, codes, split, bytes_eq}
use resolver_addon.Sorter.Rank.{StreamSortableField}

pub record StreamSorterConfig : Type 0 where
  pub field : StreamSortableField
  pub desc : Bool

-- A white space of ASCII.
abbrev pub is_space : ℕ → Bool
is_space c = c == 32 || (c == 9 || (c == 10 || (c == 11 || (c == 12 || c == 13))))

unfoldable pub trim_left : Bytes → Bytes
trim_left [] = []
trim_left (c ∷ s) = let rest = trim_left s in if is_space c then rest else c ∷ s

-- Behind the last byte that is no space there is nothing.
abbrev pub cons_or_space : ℕ → Bytes → Bytes
cons_or_space c [] = if is_space c then [] else c ∷ []
cons_or_space c (d ∷ s) = c ∷ d ∷ s

unfoldable pub trim_right : Bytes → Bytes
trim_right [] = []
trim_right (c ∷ s) = cons_or_space c (trim_right s)

-- strings.TrimSpace
abbrev pub trim_space : Bytes → Bytes
trim_space s = trim_left (trim_right s)

unfoldable pub field_of : Bytes → Option StreamSortableField
field_of s =
    if bytes_eq s (codes "resolution")
    then some StreamSortableField.resolution
    else if bytes_eq s (codes "quality")
    then some StreamSortableField.quality
    else if bytes_eq s (codes "size")
    then some StreamSortableField.size
    else if bytes_eq s (codes "hdr")
    then some StreamSortableField.hdr
    else none

abbrev pub cons_field :
    Bool → Option StreamSortableField → List StreamSorterConfig → List StreamSorterConfig
cons_field desc none configs = configs
cons_field desc (some field) configs = record { field = field; desc = desc } ∷ configs

-- The loop over the parts; a part that is no field is passed over.
unfoldable pub parse_parts : List Bytes → List StreamSorterConfig
unfolding field_of trim_left trim_right
parse_parts [] = []
parse_parts (p ∷ parts) =
    let part = trim_space p in
    cons_field (has_prefix part (codes "-")) (field_of (trim_prefix part (codes "-")))
      (parse_parts parts)

unfoldable pub parse_sort_config : Bytes → List StreamSorterConfig
unfolding parse_parts
parse_sort_config config = parse_parts (split config b',')

-- StreamDefaultSortConfig
abbrev pub default_sort_config : Bytes
default_sort_config = codes "-resolution,-quality,-size"
