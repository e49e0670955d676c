-- ===== src/Anime/Torrent/Plain.antt =====
-- prepareAniDBTorrentMaps of internal/worker/map_anidb_torrent.go, for a torrent without seasons and episodes.
use resolver_addon.Prelude.{
  ℕ, Bool, not, ◌&&◌, ◌||◌, List, [], ◌∷◌, ◌++◌, Option, none, some, if◌then◌else◌, length,
}
use resolver_addon.Prelude.Affix.{or_else}
use resolver_addon.Prelude.Bytes.{Bytes, bytes_eq}
use resolver_addon.Prelude.Decimal.{atoi}
use resolver_addon.Prelude.Int.{ℤ, eqb_ℤ, ◌+ℤ◌}
use resolver_addon.Anime.{
  EpisodeMap, none_ℤ, is_zero, has_absolute_order, is_anidb_regular_season, any_absolute,
}
use resolver_addon.Anime.Groups.{Group}
use resolver_addon.Anime.Titles.{AnidbTitle, full_title, sort_anidb_titles}
use resolver_addon.Anime.Torrent.{
  TorrentMap, TorrentSeasonType, torrent_map, with_episodes, TorrentInfo, year_text, is_near,
  update_at,
}

abbrev season_of : AnidbTitle → ℤ
season_of t = or_else (atoi t.season) none_ℤ

-- The range of the map in the series, where it has one.
abbrev tv_map : AnidbTitle → EpisodeMap → TorrentMap
tv_map title m =
    let tv = torrent_map title.tid TorrentSeasonType.tv m.tvdb_season in
    if is_zero m.start || is_zero m.end
    then tv
    else with_episodes tv (m.start +ℤ m.offset) (m.end +ℤ m.offset)

-- A map whose year is that of the title.
abbrev of_year : AnidbTitle → EpisodeMap → List TorrentMap
of_year title m =
    if has_absolute_order m
    then with_episodes (torrent_map title.tid TorrentSeasonType.abs m.tvdb_season)
        (m.start +ℤ m.offset) (m.end +ℤ m.offset)
      ∷ (if eqb_ℤ (season_of title) none_ℤ
          then []
          else with_episodes (torrent_map title.tid TorrentSeasonType.ani (season_of title)) m.start
              m.end
            ∷ [])
    else if is_anidb_regular_season m
    then tv_map title m ∷ []
    else []

-- The episodes of the anime, and of the series: the set of those that are seen is never written to.
abbrev keys_of : List (ℤ × List ℤ) → List ℤ
keys_of [] = []
keys_of (e ∷ es) = e.0 ∷ keys_of es

abbrev values_of : List (ℤ × List ℤ) → List ℤ
values_of [] = []
values_of (e ∷ es) = e.1 ++ values_of es

abbrev is_listed : EpisodeMap → Bool
is_listed m = is_zero m.start || is_zero m.end

abbrev listed : EpisodeMap → List (ℤ × List ℤ)
listed m = if is_listed m then m.to_tvdb else []

abbrev add_episodes : List ℤ → TorrentMap → TorrentMap
add_episodes eps m = record m { episodes = m.episodes ++ eps }

-- One map of the anime is kept for all of its group: `ani` is its index.
unfoldable pub without_year :
    AnidbTitle → Option ℕ → List EpisodeMap → List TorrentMap → List TorrentMap
without_year title ani [] t_maps = t_maps
without_year title ani (m ∷ ms) t_maps =
    let skipped = without_year title ani ms t_maps in
    let tv = add_episodes (values_of (listed m)) (tv_map title m) in
    let kept : List TorrentMap = elim ani [
      | none ↦ without_year title (some (length t_maps)) ms (
          t_maps
          ++ add_episodes (keys_of (listed m))
              (torrent_map title.tid TorrentSeasonType.ani (season_of title))
            ∷ tv
            ∷ [])
      | some i ↦
          without_year title (some i) ms
            (update_at i (add_episodes (keys_of (listed m))) t_maps ++ tv ∷ [])
    ] in
    if is_anidb_regular_season m then kept else skipped

unfoldable pub with_year : AnidbTitle → List EpisodeMap → List TorrentMap → List TorrentMap
with_year title [] t_maps = t_maps
with_year title (m ∷ ms) t_maps = with_year title ms (t_maps ++ of_year title m)

-- The loop over the maps of the group of the title.
abbrev pub of_group : AnidbTitle → Bytes → List EpisodeMap → List TorrentMap → List TorrentMap
of_group title year ms t_maps =
    if not (bytes_eq title.year []) && bytes_eq year title.year
    then with_year title ms t_maps
    else if bytes_eq title.year []
    then without_year title none ms t_maps
    else t_maps

-- The loop over the groups.
unfoldable pub of_title :
    AnidbTitle → List AnidbTitle → TorrentInfo → List Group → List TorrentMap → List TorrentMap
unfolding without_year with_year is_near
of_title title titles info [] t_maps = t_maps
of_title title titles info (g ∷ groups) t_maps =
    let skipped = of_title title titles info groups t_maps in
    let taken =
      of_title title titles info groups
        (of_group title (year_text info) g.tvdb_episode_maps t_maps) in
    if not (bytes_eq g.anidb_id title.tid)
    then skipped
    else if not (bytes_eq (year_text info) [])
        && (bytes_eq title.year [] && any_absolute g.tvdb_episode_maps)
    then t_maps
    else if is_near titles info g.anidb_id
    then taken
    else skipped

abbrev pub of_best : List AnidbTitle → List AnidbTitle → TorrentInfo → List Group → List TorrentMap
of_best [] titles info groups = []
of_best (title ∷ others) titles info groups =
    if info.is_movie
      && (not (bytes_eq (year_text info) [])
          && (not (bytes_eq title.year []) && not (bytes_eq (year_text info) title.year)))
    then []
    else of_title title titles info groups []

module _ (distance : Bytes → Bytes → ℤ) where
  -- The titles in their order, the nearest first.
  abbrev pub sorted_titles : List AnidbTitle → TorrentInfo → List AnidbTitle
  sorted_titles titles info =
      sort_anidb_titles distance (full_title info.title info.torrent_title info.release_types)
        (year_text info) titles

  unfoldable pub plain_maps : List Group → List AnidbTitle → TorrentInfo → List TorrentMap
  unfolding of_title
  plain_maps groups titles info =
      of_best (sorted_titles titles info) (sorted_titles titles info) info groups
