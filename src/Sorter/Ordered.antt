-- ===== src/Sorter/Ordered.antt =====
-- `SortStreams` of internal/stremio/transformer/stream_sorter.go sorts stably: `Less` orders the streams that
-- can be sorted.
use mathlib.Core.Path.{subst}
use mathlib.Core.List.Perm
use resolver_addon.Prelude.{
  ◌≡◌, refl, sym, ◌∙◌, Bool, true, false, ◌&&◌, ◌||◌, zero, suc, List, [], ◌∷◌, arith, All,
  if◌then◌else◌,
}
use resolver_addon.Prelude.Bytes.{Bytes}
use resolver_addon.Prelude.Int.{ℤ, pos, negsuc, ltb_ℤ, eqb_ℤ}
use resolver_addon.Sorter.Config.{StreamSorterConfig, parse_sort_config}
use resolver_addon.Sorter.Order.{rank, less_by, less, config_or_default, sort_by, sort_streams}
use resolver_addon.Sorter.Rank.{StreamSortable}
use resolver_addon.Sorter.Sorted.{
  IsStableSort, IsOrder, IsAscending, sort_stable-IsStableSort, sort_stable-same,
}

-- One field decides, or the fields behind it do.
first_field : (va vb : ℤ) (desc rest : Bool) → Bool
first_field va vb desc rest =
    if eqb_ℤ va vb then rest else if desc then ltb_ℤ vb va else ltb_ℤ va vb

first_field_asym :
    (va vb : ℤ) (desc ab ba : Bool)
    → (ab ≡ true → ba ≡ false)
    → first_field va vb desc ab ≡ true
    → first_field vb va desc ba ≡ false
unfolding first_field
first_field_asym va vb true ab ba ih h = ground (arith, ih)
first_field_asym va vb false ab ba ih h = ground (arith, ih)

first_field_trans :
    (va vb vc : ℤ) (desc ab bc ac : Bool)
    → (ab ≡ false → bc ≡ false → ac ≡ false)
    → first_field va vb desc ab ≡ false
    → first_field vb vc desc bc ≡ false
    → first_field va vc desc ac ≡ false
unfolding first_field
first_field_trans va vb vc true ab bc ac ih h k = ground (arith, ih)
first_field_trans va vb vc false ab bc ac ih h k = ground (arith, ih)

-- -z
abbrev neg : ℤ → ℤ
neg (pos zero) = pos 0
neg (pos (suc n)) = negsuc n
neg (negsuc n) = pos (suc n)

-- The order of words.
before : List ℤ → List ℤ → Bool
before [] ys = false
before (x ∷ xs) [] = false
before (x ∷ xs) (y ∷ ys) = ltb_ℤ x y || (eqb_ℤ x y && before xs ys)

ltb-neg : (x y : ℤ) → ltb_ℤ (neg x) (neg y) ≡ ltb_ℤ y x
ltb-neg x y = ground arith

eqb-neg : (x y : ℤ) → eqb_ℤ (neg x) (neg y) ≡ eqb_ℤ x y
eqb-neg x y = ground arith

one_key :
    (va vb : ℤ) (desc rest more : Bool)
    → rest ≡ more
    → (if eqb_ℤ va vb then rest else if desc then ltb_ℤ vb va else ltb_ℤ va vb)
      ≡ ltb_ℤ (if desc then neg va else va) (if desc then neg vb else vb)
        || (eqb_ℤ (if desc then neg va else va) (if desc then neg vb else vb) && more)
one_key va vb true rest more e = ground (arith, ltb-neg va vb, eqb-neg va vb)
one_key va vb false rest more e = ground arith

module _ {T : Type 0} (to_bytes : Bytes → ℤ) (view : T → StreamSortable) where
  abbrev pub IsSortable : T → Type 0
  IsSortable s = (view s).is_sortable ≡ true

  less_by_asym :
      (configs : List StreamSorterConfig) (a b : T)
      → less_by to_bytes view configs a b ≡ true
      → less_by to_bytes view configs b a ≡ false
  unfolding less_by first_field
  less_by_asym [] a b h = absurd (ground (arith, h))
  less_by_asym (config ∷ configs) a b h =
      first_field_asym (rank to_bytes view config a) (rank to_bytes view config b) config.desc _ _
        (less_by_asym configs a b) h

  less_by_trans :
      (configs : List StreamSorterConfig) (a b c : T)
      → less_by to_bytes view configs a b ≡ false
      → less_by to_bytes view configs b c ≡ false
      → less_by to_bytes view configs a c ≡ false
  unfolding less_by first_field
  less_by_trans [] a b c h k = refl
  less_by_trans (config ∷ configs) a b c h k =
      first_field_trans (rank to_bytes view config a) (rank to_bytes view config b)
        (rank to_bytes view config c) config.desc _ _ _ (less_by_trans configs a b c) h k

  -- The rank to sort by: a descending field counts backwards.
  abbrev signed_rank : StreamSorterConfig → T → ℤ
  signed_rank config s =
      if config.desc then neg (rank to_bytes view config s) else rank to_bytes view config s

  keys : List StreamSorterConfig → T → List ℤ
  keys [] s = []
  keys (config ∷ configs) s = signed_rank config s ∷ keys configs s

  -- The ranks of `a` are before those of `b` in the order of words.
  pub comes_before : List StreamSorterConfig → T → T → Bool
  comes_before configs a b = before (keys configs a) (keys configs b)

  less_by-before :
      (configs : List StreamSorterConfig) (a b : T)
      → less_by to_bytes view configs a b ≡ before (keys configs a) (keys configs b)
  unfolding less_by before keys
  less_by-before [] a b = refl
  less_by-before (config ∷ configs) a b =
      one_key (rank to_bytes view config a) (rank to_bytes view config b) config.desc _ _
        (less_by-before configs a b)

  comes_before-IsOrder :
      (configs : List StreamSorterConfig) → IsOrder IsSortable (comes_before configs)
  unfolding comes_before
  comes_before-IsOrder configs = record {
    asym = λ a b pa pb h.
        sym (less_by-before configs b a)
        ∙ less_by_asym configs a b (less_by-before configs a b ∙ h);
    trans = λ a b c pa pb pc h k.
        sym (less_by-before configs a c)
        ∙ less_by_trans configs a b c (less_by-before configs a b ∙ h)
            (less_by-before configs b c ∙ k);
  }

  less-comes_before :
      (configs : List StreamSorterConfig) (a b : T)
      → IsSortable a
      → IsSortable b
      → less to_bytes view configs a b ≡ comes_before configs a b
  unfolding less comes_before
  less-comes_before configs a b ha hb = rw (hb, ha) (less_by-before configs a b)

  -- Without a field nothing comes before anything.
  none_before : (x : T) (items : List T) → All (λ y. comes_before [] y x ≡ false) items
  unfolding comes_before before keys
  none_before x [] = tt
  none_before x (y ∷ items) = (refl, none_before x items)

  all_ascend : (items : List T) → IsAscending (comes_before []) items
  all_ascend [] = tt
  all_ascend (x ∷ items) = (none_before x items, all_ascend items)

  -- Where all streams can be sorted, SortStreams is a stable sort by the ranks in the fields of the
  -- configuration, or of the default where the configuration is empty: the first field in which two streams
  -- differ decides, downwards where it is descending. The result has the same streams, none in front of one
  -- that comes before it, and streams with the same ranks in the order that they had.
  pub sort_streams-IsStableSort :
      (items : List T) (config : Bytes)
      → All IsSortable items
      → IsStableSort IsSortable
          (comes_before (parse_sort_config (config_or_default to_bytes view config)))
          items
          (sort_streams to_bytes view items config)
  unfolding sort_streams sort_by
  sort_streams-IsStableSort items config h =
      by_configs (parse_sort_config (config_or_default to_bytes view config))
    where
      by_configs :
          (configs : List StreamSorterConfig)
          → IsStableSort IsSortable
              (comes_before configs)
              items
              (sort_by to_bytes view configs items)
      by_configs [] = record {
        perm = Perm.refl items;
        ascending = all_ascend items;
        stable = λ a pa. refl;
      }
      by_configs (c ∷ configs) =
          subst (IsStableSort IsSortable (comes_before (c ∷ configs)) items)
            (sym (
              sort_stable-same IsSortable (less to_bytes view (c ∷ configs))
                (comes_before (c ∷ configs)) (less-comes_before (c ∷ configs)) items h))
            (sort_stable-IsStableSort IsSortable (comes_before (c ∷ configs))
              (comes_before-IsOrder (c ∷ configs)) items h)
