-- ===== src/Anime/Titles.antt =====
-- `AniDBTitles` of internal/anidb/title.db.go, and sortAniDBTitles of internal/worker/map_anidb_torrent.go. The
-- distance of two texts is that of a package, and a parameter.
use resolver_addon.Prelude.{
  Bool, true, false, List, [], ◌∷◌, ◌++◌, Option, none, some, if◌then◌else◌,
}
use resolver_addon.Prelude.Affix.{or_else, to_lower, contains}
use resolver_addon.Prelude.Bytes.{Bytes, codes, bytes_eq}
use resolver_addon.Prelude.Decimal.{atoi}
use resolver_addon.Prelude.Int.{ℤ, pos, ltb_ℤ, ◌-ℤ◌}
use resolver_addon.Sorter.Stable.{sort_stable}
use resolver_addon.Anime.{none_ℤ}

pub record AnidbTitle : Type 0 where
  pub tid : Bytes
  pub value : Bytes
  pub season : Bytes
  pub year : Bytes

-- GetSeason: -1 if there is none
unfoldable pub get_season : List AnidbTitle → Bytes → ℤ
get_season [] id = none_ℤ
get_season (t ∷ titles) id =
    let rest = get_season titles id in
    if bytes_eq t.tid id then or_else (atoi t.season) rest else rest

-- GetYear: 0 if there is none
unfoldable pub get_year : List AnidbTitle → Bytes → ℤ
get_year [] id = pos 0
get_year (t ∷ titles) id =
    let rest = get_year titles id in if bytes_eq t.tid id then or_else (atoi t.year) rest else rest

abbrev later_end : Option ℤ → ℤ → ℤ
later_end none end = end
later_end (some s) end = if ltb_ℤ end s then s else end

unfoldable pub last_season : List AnidbTitle → ℤ → ℤ
last_season [] end = end
last_season (t ∷ titles) end =
    last_season titles
      (if bytes_eq t.season (codes "1") then end else later_end (atoi t.season) end)

-- SeasonBoundary
unfoldable pub season_boundary : List AnidbTitle → ℤ × ℤ
unfolding last_season
season_boundary titles = (pos 1, last_season titles (pos 1))

-- The release type that is added to the title of the torrent, behind a space.
abbrev known_type : Bytes → Bytes → Bytes
known_type torrent_title type =
    if contains torrent_title type
    then type
    else if bytes_eq type (codes "ova")
    then codes "oav"
    else if bytes_eq type (codes "oad")
    then codes "oda"
    else []

abbrev behind_space : Bytes → Bytes
behind_space [] = []
behind_space (c ∷ s) = b' ' ∷ c ∷ s

abbrev pub full_title : Bytes → Bytes → List Bytes → Bytes
full_title title torrent_title (type ∷ []) =
    to_lower title ++ behind_space (known_type (to_lower torrent_title) (to_lower type))
full_title title torrent_title types = to_lower title

module _ (distance : Bytes → Bytes → ℤ) where
  abbrev pub title_distance : Bytes → AnidbTitle → ℤ
  title_distance title t = distance title (to_lower t.value)

  -- The comparison of SortStableFunc, below 0: `year` is empty or that of the torrent.
  unfoldable pub title_before : Bytes → Bytes → AnidbTitle → AnidbTitle → Bool
  title_before title year a b =
      let nearer = ltb_ℤ (title_distance title a -ℤ title_distance title b) (pos 0) in
      if bytes_eq year []
      then nearer
      else if bytes_eq a.year b.year
      then nearer
      else if bytes_eq a.year year
      then true
      else if bytes_eq b.year year
      then false
      else nearer

  unfoldable pub sort_anidb_titles : Bytes → Bytes → List AnidbTitle → List AnidbTitle
  sort_anidb_titles title year titles = sort_stable (title_before title year) titles
