-- ===== src/Anime.antt =====
-- internal/anidb/tvdb_episode_map.db.go: how the episodes of an anime lie in the seasons of a series. An int
-- is an integer without bounds: the code adds and compares numbers of episodes.
pub mod Groups
pub mod Grouped
pub mod Titles
pub mod Columns
pub mod ColumnsRead
pub mod Nearest
pub mod Offsets
pub mod Torrent
pub mod Examples
use resolver_addon.Prelude.{
  ℕ, ◌+◌, ◌-◌, ◌≤◌, Bool, true, false, not, ◌&&◌, ◌||◌, List, [], ◌∷◌, ◌++◌, Option, none, some,
  if◌then◌else◌, leb, ltb, ◌==◌,
}
use resolver_addon.Prelude.Bytes.{Bytes, bytes_eq}
use resolver_addon.Prelude.Int.{ℤ, pos, negsuc, ltb_ℤ, eqb_ℤ, ◌+ℤ◌, ◌-ℤ◌, pos_part, neg_part}

-- -1
abbrev pub none_ℤ : ℤ
none_ℤ = negsuc 0

abbrev pub leb_ℤ : ℤ → ℤ → Bool
leb_ℤ a b = not (ltb_ℤ b a)

abbrev pub is_zero : ℤ → Bool
is_zero a = eqb_ℤ a (pos 0)

abbrev pub has_number : List ℤ → ℤ → Bool
has_number [] a = false
has_number (b ∷ bs) a = eqb_ℤ b a || has_number bs a

pub record EpisodeMap : Type 0 where
  pub anidb_id : Bytes
  pub tvdb_id : Bytes
  pub anidb_season : ℤ
  pub tvdb_season : ℤ
  pub start : ℤ
  pub end : ℤ
  pub offset : ℤ
  pub before : List (ℤ × ℤ)
  pub to_tvdb : List (ℤ × List ℤ)

abbrev pub is_anidb_regular_season : EpisodeMap → Bool
is_anidb_regular_season m = eqb_ℤ m.anidb_season (pos 1)

abbrev pub has_episode_range : EpisodeMap → Bool
has_episode_range m = ltb_ℤ (pos 0) m.start && ltb_ℤ (pos 0) m.end

abbrev pub tvdb_episode_start : EpisodeMap → ℤ
tvdb_episode_start m = m.start +ℤ m.offset

abbrev pub tvdb_episode_end : EpisodeMap → ℤ
tvdb_episode_end m = m.end +ℤ m.offset

abbrev pub has_absolute_order : EpisodeMap → Bool
has_absolute_order m = eqb_ℤ m.tvdb_season none_ℤ

abbrev pub find_episodes : List (ℤ × List ℤ) → ℤ → Option (List ℤ)
find_episodes [] ep = none
find_episodes (e ∷ m) ep = if eqb_ℤ e.0 ep then some e.1 else find_episodes m ep

abbrev shifted : EpisodeMap → ℤ → Option (List ℤ) → List ℤ
shifted m ep (some eps) = eps
shifted m ep none =
    if has_absolute_order m
    then (ep +ℤ m.offset) ∷ []
    else if not (is_zero m.end) && ltb_ℤ m.end ep
    then []
    else if not (is_zero m.start) && ltb_ℤ ep m.start
    then []
    else (ep +ℤ m.offset) ∷ []

-- getTMDBEpisodes
unfoldable pub get_tmdb_episodes : EpisodeMap → ℤ → List ℤ
get_tmdb_episodes m ep = shifted m ep (find_episodes m.to_tvdb ep)

abbrev first_or_none : List ℤ → ℤ
first_or_none [] = none_ℤ
first_or_none (ep ∷ eps) = ep

-- GetTMDBEpisode
unfoldable pub get_tmdb_episode : EpisodeMap → ℤ → ℤ
unfolding get_tmdb_episodes
get_tmdb_episode m ep = if eqb_ℤ ep none_ℤ then ep else first_or_none (get_tmdb_episodes m ep)

abbrev covers : EpisodeMap → ℤ → Bool
covers m ep =
    if has_episode_range m
    then leb_ℤ m.start ep && leb_ℤ ep m.end
    else if ltb_ℤ (pos 0) m.start
    then leb_ℤ m.start ep
    else ltb_ℤ (pos 0) m.end && leb_ℤ ep m.end

abbrev find_covering : List EpisodeMap → ℤ → Option EpisodeMap
find_covering [] ep = none
find_covering (m ∷ ms) ep =
    if ltb_ℤ (pos 0) m.tvdb_season && covers m ep then some m else find_covering ms ep

-- GetByAnidbEpisode
unfoldable pub get_by_anidb_episode : List EpisodeMap → ℤ → Option EpisodeMap
get_by_anidb_episode ms ep = if eqb_ℤ ep none_ℤ then none else find_covering ms ep

abbrev add_season : List ℤ → ℤ → List ℤ
add_season seasons s = if has_number seasons s then seasons else seasons ++ s ∷ []

abbrev seasons_from : List EpisodeMap → List ℤ → List ℤ
seasons_from [] seasons = seasons
seasons_from (m ∷ ms) seasons = seasons_from ms (add_season seasons m.tvdb_season)

-- GetTVDBSeasons
unfoldable pub get_tvdb_seasons : List EpisodeMap → List ℤ
get_tvdb_seasons ms = seasons_from ms []

-- HasAbsoluteOrder of a list
unfoldable pub any_absolute : List EpisodeMap → Bool
any_absolute [] = false
any_absolute (m ∷ ms) = has_absolute_order m || any_absolute ms

-- GetAbsoluteOrderSeasonMap; none is nil.
unfoldable pub absolute_map : List EpisodeMap → Option EpisodeMap
absolute_map [] = none
absolute_map (m ∷ ms) = let rest = absolute_map ms in if has_absolute_order m then some m else rest

-- The first map of a season of the series.
unfoldable pub map_of_season : List EpisodeMap → ℤ → Option EpisodeMap
map_of_season [] season = none
map_of_season (m ∷ ms) season =
    let rest = map_of_season ms season in if eqb_ℤ m.tvdb_season season then some m else rest

-- A call of a method of a nil map panics: none.
abbrev pub absolute_from : Option EpisodeMap → Option EpisodeMap → ℤ → Option ℤ
absolute_from none absolute ep = some none_ℤ
absolute_from (some m) none ep = none
absolute_from (some m) (some absolute) ep = some (ep -ℤ m.offset +ℤ absolute.offset)

-- GetTVDBAbsoluteEpisode
unfoldable pub get_tvdb_absolute_episode : List EpisodeMap → ℤ → ℤ → Option ℤ
unfolding map_of_season absolute_map
get_tvdb_absolute_episode ms season ep =
    absolute_from (map_of_season ms season) (absolute_map ms) ep

abbrev pub range_from : Option EpisodeMap → Option EpisodeMap → ℤ → ℤ → Option (ℤ × ℤ)
range_from none absolute first last = some (none_ℤ, none_ℤ)
range_from (some m) none first last = none
range_from (some m) (some absolute) first last =
    let start = first -ℤ m.offset +ℤ absolute.offset in some (start, last +ℤ (start -ℤ last))

-- ToTVDBAbsoluteRange
unfoldable pub to_tvdb_absolute_range : List EpisodeMap → ℤ → ℤ → ℤ → Option (ℤ × ℤ)
unfolding map_of_season absolute_map
to_tvdb_absolute_range ms season first last =
    range_from (map_of_season ms season) (absolute_map ms) first last

abbrev pub among : List Bytes → Bytes → Bool
among [] id = false
among (j ∷ ids) id = bytes_eq j id || among ids id

-- HasSplitedTVSeasons
unfoldable pub has_splited : List EpisodeMap → List Bytes → Bool
has_splited [] seen = false
has_splited (m ∷ ms) seen =
    let skipped = has_splited ms seen in
    let later = has_splited ms (m.anidb_id ∷ seen) in
    if ltb_ℤ m.tvdb_season (pos 1) || ltb_ℤ m.anidb_season (pos 1)
    then skipped
    else if among seen m.anidb_id
    then true
    else later

abbrev pub has_splited_tv_seasons : List EpisodeMap → Bool
has_splited_tv_seasons ms = has_splited ms []

-- The largest normal episode: the end of a map counts before its start.
unfoldable pub largest_from : List EpisodeMap → ℤ → ℤ
largest_from [] largest = largest
largest_from (m ∷ ms) largest =
    let same = largest_from ms largest in
    let to_end = largest_from ms m.end in
    let to_start = largest_from ms m.start in
    if has_absolute_order m
    then same
    else if not (is_zero m.end) && ltb_ℤ largest m.end
    then to_end
    else if not (is_zero m.start) && ltb_ℤ largest m.start
    then to_start
    else same

abbrev any_above : List ℤ → ℤ → Bool
any_above [] n = false
any_above (ep ∷ eps) n = any_above eps n || ltb_ℤ n ep

-- AreAbsoluteEpisode
unfoldable pub are_absolute_episode : List EpisodeMap → List ℤ → Bool
unfolding any_absolute largest_from
are_absolute_episode ms episodes =
    if not (any_absolute ms) then false else any_above episodes (largest_from ms (pos 0))
