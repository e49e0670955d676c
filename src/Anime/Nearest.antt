-- ===== src/Anime/Nearest.antt =====
-- sortAniDBTitles of internal/worker/map_anidb_torrent.go sorts stably.
use mathlib.Core.Path.{subst}
use resolver_addon.Prelude.{
  ◌≡◌, sym, Bool, true, false, not, ◌&&◌, List, [], ◌∷◌, if◌then◌else◌, All, arith,
}
use resolver_addon.Prelude.Bytes.{Bytes, bytes_eq, bytes_eq_iff}
use resolver_addon.Prelude.Int.{ℤ, pos, ltb_ℤ, ◌-ℤ◌, -ℤ_parts}
use resolver_addon.Anime.Titles.{AnidbTitle, title_distance, title_before, sort_anidb_titles}
use resolver_addon.Sorter.Sorted.{IsStableSort, IsOrder, sort_stable-IsStableSort, sort_stable-same}

-- Of two titles, with `a` of the year and `b` of the year, or not, and their distances.
abbrev pub is_before : Bool → Bool → ℤ → ℤ → Bool
is_before a b near far =
    if a then (if b then ltb_ℤ near far else true) else (not b && ltb_ℤ near far)

is_before_asym : (a b : Bool) (m n : ℤ) → is_before a b m n ≡ true → is_before b a n m ≡ false
is_before_asym a b m n h = ground (arith, h)

is_before_trans :
    (a b c : Bool) (l m n : ℤ)
    → is_before a b l m ≡ false
    → is_before b c m n ≡ false
    → is_before a c l n ≡ false
is_before_trans a b c l m n h k = ground (arith, h, k)

ltb-minus : (a b : ℤ) → ltb_ℤ (a -ℤ b) (pos 0) ≡ ltb_ℤ a b
ltb-minus a b = ground (arith, -ℤ_parts a b)

module _ (distance : Bytes → Bytes → ℤ) (title year : Bytes) where
  -- A title of the year of the torrent, where that is known.
  abbrev pub of_year : AnidbTitle → Bool
  of_year t = not (bytes_eq year []) && bytes_eq t.year year

  -- Titles of the year come first, and the nearest of them.
  pub comes_first : AnidbTitle → AnidbTitle → Bool
  comes_first a b =
      is_before (of_year a) (of_year b) (title_distance distance title a)
        (title_distance distance title b)

  abbrev pub IsAny : AnidbTitle → Type 0
  IsAny t = Unit

  title_before-comes_first :
      (a b : AnidbTitle)
      → IsAny a
      → IsAny b
      → title_before distance title year a b ≡ comes_first a b
  unfolding title_before comes_first
  title_before-comes_first a b ha hb =
      rw (ltb-minus (title_distance distance title a) (title_distance distance title b)) (
        ground
          (arith, bytes_eq_iff a.year b.year, bytes_eq_iff a.year year, bytes_eq_iff b.year year))

  titles-IsAny : (titles : List AnidbTitle) → All IsAny titles
  titles-IsAny [] = tt
  titles-IsAny (t ∷ titles) = (tt, titles-IsAny titles)

  abbrev far : AnidbTitle → ℤ
  far t = title_distance distance title t

  comes_first-IsOrder : IsOrder IsAny comes_first
  unfolding comes_first
  comes_first-IsOrder = record {
    asym = λ a b pa pb h. is_before_asym (of_year a) (of_year b) (far a) (far b) h;
    trans = λ a b c pa pb pc h k.
        is_before_trans (of_year a) (of_year b) (of_year c) (far a) (far b) (far c) h k;
  }

  -- sortAniDBTitles is a stable sort: titles of the year of the torrent, where that is known, come first, and then
  -- the titles with the least distance from the title of the torrent.
  pub sort_anidb_titles-IsStableSort :
      (titles : List AnidbTitle)
      → IsStableSort IsAny comes_first titles (sort_anidb_titles distance title year titles)
  unfolding sort_anidb_titles
  sort_anidb_titles-IsStableSort titles =
      subst (IsStableSort IsAny comes_first titles)
        (sym (
          sort_stable-same IsAny (title_before distance title year) comes_first
            title_before-comes_first titles (titles-IsAny titles)))
        (sort_stable-IsStableSort IsAny comes_first comes_first-IsOrder titles
          (titles-IsAny titles))
