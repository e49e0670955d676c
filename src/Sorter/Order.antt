-- ===== src/Sorter/Order.antt =====
-- `Less` and `SortStreams` of internal/stremio/transformer/stream_sorter.go. The stable sort of the
-- standard library is written as the insertion sort that it makes of up to 20 items; of more it has the same
-- result where `Less` is an order.
use resolver_addon.Prelude.{Bool, true, false, not, List, [], ◌∷◌, if◌then◌else◌}
use resolver_addon.Prelude.Bytes.{Bytes, bytes_eq}
use resolver_addon.Prelude.Int.{ℤ, ltb_ℤ, eqb_ℤ}
use resolver_addon.Sorter.Rank.{StreamSortable, field_rank}
use resolver_addon.Sorter.Config.{StreamSorterConfig, parse_sort_config, default_sort_config}
use resolver_addon.Sorter.Stable.{sort_stable}

module _ {T : Type 0} (to_bytes : Bytes → ℤ) (view : T → StreamSortable) where
  abbrev pub rank : StreamSorterConfig → T → ℤ
  rank config s = field_rank to_bytes (view s) config.field

  -- The loop over the fields: the first in which the two differ decides.
  unfoldable pub less_by : List StreamSorterConfig → T → T → Bool
  less_by [] a b = false
  less_by (config ∷ configs) a b =
      let rest = less_by configs a b in
      let va = rank config a in
      let vb = rank config b in
      if eqb_ℤ va vb then rest else if config.desc then ltb_ℤ vb va else ltb_ℤ va vb

  -- Less
  unfoldable pub less : List StreamSorterConfig → T → T → Bool
  unfolding less_by
  less configs a b =
      if not (view b).is_sortable
      then true
      else if not (view a).is_sortable
      then false
      else less_by configs a b

  abbrev pub config_or_default : Bytes → Bytes
  config_or_default config = if bytes_eq config [] then default_sort_config else config

  -- With no field there is nothing to do.
  unfoldable pub sort_by : List StreamSorterConfig → List T → List T
  sort_by [] items = items
  sort_by (config ∷ configs) items = sort_stable (less (config ∷ configs)) items

  unfoldable pub sort_streams : List T → Bytes → List T
  unfolding sort_by
  sort_streams items config = sort_by (parse_sort_config (config_or_default config)) items
