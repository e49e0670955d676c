-- ===== src/Anime/Examples.antt =====
-- Tests of the maps of torrents of anime.
use resolver_addon.Prelude.{
  ◌≡◌, refl, sym, ◌≤◌, ℕ, Bool, true, false, not, ◌&&◌, ◌||◌, List, [], ◌∷◌, ◌++◌, Option, none,
  some, if◌then◌else◌, All, arith, map,
}
use resolver_addon.Prelude.Bytes.{Bytes, codes, bytes_eq}
use resolver_addon.Prelude.Decimal.{itoa, atoi}
use resolver_addon.Prelude.Int.{ℤ, pos, negsuc, ◌-ℤ◌, ◌+ℤ◌}
use resolver_addon.Anime.{
  EpisodeMap, none_ℤ, absolute_map, get_tmdb_episode, get_tvdb_absolute_episode,
  are_absolute_episode, to_tvdb_absolute_range, any_absolute,
}
use resolver_addon.Anime.Groups.{group_by_anidb_id}
use resolver_addon.Anime.Grouped.{all_maps, IsGroup, AreApart, group_by_anidb_id-AreRuns}
use resolver_addon.Anime.Titles.{AnidbTitle, sort_anidb_titles, get_year}
use resolver_addon.Anime.Nearest.{IsAny, comes_first, sort_anidb_titles-IsStableSort}
use resolver_addon.Anime.Offsets.{both_starts, to_tvdb_absolute_range_lem}
use resolver_addon.Anime.Columns.{map_value, scan_map}
use resolver_addon.Anime.ColumnsRead.{scan_map-map_value}
use resolver_addon.Anime.Torrent.{
  TorrentMap, TorrentInfo, TorrentSeasonType, torrent_map, with_episodes,
}
use resolver_addon.Anime.Torrent.Absolute.{absolute_maps}
use resolver_addon.Anime.Torrent.Absolute.Bounds.{IsRange, absolute_maps-IsRange}
use resolver_addon.Anime.Torrent.Prepare.{prepare_torrent_maps}
use resolver_addon.Anime.Torrent.Seasons.{season_maps}
use resolver_addon.Anime.Torrent.Seasons.Keeps.{Yields, AreOf}
use resolver_addon.Anime.Torrent.Seasons.Match.{asked_of, is_tv_season}
use resolver_addon.Anime.Torrent.Seasons.Near.{IsNear, season_maps-AreNear}
use resolver_addon.Sorter.Sorted.{IsStableSort}

abbrev map_of : Bytes → ℤ → ℤ → ℤ → ℤ → EpisodeMap
map_of id season start end offset = record {
  anidb_id = id;
  tvdb_id = codes "9";
  anidb_season = pos 1;
  tvdb_season = season;
  start = start;
  end = end;
  offset = offset;
  before = [];
  to_tvdb = [];
}

-- Three anime that are the three seasons of a series, in its absolute order.
abbrev three_parts : List EpisodeMap
three_parts =
    map_of (codes "1") none_ℤ (pos 1) (pos 12) (pos 0)
    ∷ map_of (codes "1") (pos 1) (pos 1) (pos 12) (pos 0)
    ∷ map_of (codes "2") none_ℤ (pos 1) (pos 12) (pos 12)
    ∷ map_of (codes "2") (pos 2) (pos 1) (pos 12) (pos 0)
    ∷ map_of (codes "3") none_ℤ (pos 1) (pos 12) (pos 24)
    ∷ map_of (codes "3") (pos 3) (pos 1) (pos 12) (pos 0)
    ∷ []

abbrev title_of : Bytes → Bytes → Bytes → AnidbTitle
title_of id season year = record { tid = id; value = codes "Llama"; season = season; year = year }

abbrev three_titles : List AnidbTitle
three_titles =
    title_of (codes "1") (codes "1") []
    ∷ title_of (codes "2") (codes "2") []
    ∷ title_of (codes "3") (codes "3") (codes "2020")
    ∷ []

abbrev torrent : List ℤ → List ℤ → TorrentInfo
torrent seasons episodes = record {
  title = codes "llama";
  torrent_title = codes "llama";
  is_movie = false;
  release_types = [];
  seasons = seasons;
  episodes = episodes;
  year = pos 0;
  year_end = pos 0;
}

-- All texts are as far from one another.
abbrev even : Bytes → Bytes → ℤ
even a b = pos 1

abbrev ranges : Option (List TorrentMap) → List (Bytes × TorrentSeasonType × ℤ × ℤ × ℤ)
ranges none = []
ranges (some ms) =
    map (λ m. (m.anidb_id, m.season_type, m.season, m.episode_start, m.episode_end)) ms

-- Of the absolute episodes 1 to 36 the last 12 get no map: behind the second part the first episode that is left
-- is 37, since the offset of the part is added to it.
third_part_lost :
    ranges (prepare_torrent_maps even three_parts three_titles (torrent [] (pos 1 ∷ pos 36 ∷ [])))
    ≡ (codes "1", TorrentSeasonType.abs, none_ℤ, pos 1, pos 12)
      ∷ (codes "1", TorrentSeasonType.ani, pos 1, pos 1, pos 12)
      ∷ (codes "1", TorrentSeasonType.tv, pos 1, pos 1, pos 12)
      ∷ (codes "2", TorrentSeasonType.abs, none_ℤ, pos 13, pos 24)
      ∷ (codes "2", TorrentSeasonType.ani, pos 2, pos 1, pos 12)
      ∷ (codes "2", TorrentSeasonType.tv, pos 2, pos 1, pos 12)
      ∷ []
unfolding prepare_torrent_maps resolver_addon.Anime.any_absolute bytes_eq
    resolver_addon.Anime.Titles.get_year resolver_addon.Prelude.Decimal.atoi
    resolver_addon.Prelude.Int.◌+ℤ◌ resolver_addon.Prelude.Int.◌-ℤ◌
    resolver_addon.Anime.Titles.get_season
third_part_lost = refl

season_two :
    ranges (prepare_torrent_maps even three_parts three_titles (torrent (pos 2 ∷ []) []))
    ≡ (codes "2", TorrentSeasonType.abs, none_ℤ, pos 13, pos 24)
      ∷ (codes "2", TorrentSeasonType.ani, pos 2, pos 1, pos 12)
      ∷ (codes "2", TorrentSeasonType.tv, pos 2, pos 1, pos 12)
      ∷ []
unfolding prepare_torrent_maps bytes_eq resolver_addon.Anime.Titles.get_year
    resolver_addon.Prelude.Decimal.atoi resolver_addon.Anime.Torrent.Seasons.Match.is_tv_season
    resolver_addon.Anime.Torrent.Seasons.Match.is_anime_season resolver_addon.Anime.any_absolute
    resolver_addon.Prelude.Int.◌+ℤ◌ resolver_addon.Anime.Titles.get_season
    resolver_addon.Anime.Torrent.update_at resolver_addon.Prelude.Int.◌-ℤ◌
season_two = refl

-- A group without an absolute order is asked for it, where the episodes are absolute.
part_without_order : List EpisodeMap
part_without_order =
    map_of (codes "1") none_ℤ (pos 1) (pos 12) (pos 0)
    ∷ map_of (codes "1") (pos 1) (pos 1) (pos 12) (pos 0)
    ∷ map_of (codes "2") (pos 2) (pos 1) (pos 12) (pos 0)
    ∷ []

nil_map :
    prepare_torrent_maps even part_without_order three_titles (torrent (pos 2 ∷ []) (pos 20 ∷ []))
    ≡ none
unfolding prepare_torrent_maps part_without_order bytes_eq resolver_addon.Anime.Titles.get_year
    resolver_addon.Prelude.Decimal.atoi resolver_addon.Anime.Torrent.Seasons.Match.is_tv_season
    resolver_addon.Anime.Torrent.Seasons.Match.is_anime_season resolver_addon.Anime.any_absolute
    are_absolute_episode
nil_map = refl

absolute_test : get_tvdb_absolute_episode three_parts (pos 1) (pos 5) ≡ some (pos 5)
unfolding get_tvdb_absolute_episode resolver_addon.Prelude.Int.◌+ℤ◌ resolver_addon.Prelude.Int.◌-ℤ◌
absolute_test = refl

group_by_anidb_id-AreRuns_example :
    (all_maps (group_by_anidb_id three_parts) ≡ three_parts)
    × All IsGroup (group_by_anidb_id three_parts)
    × AreApart (group_by_anidb_id three_parts)
group_by_anidb_id-AreRuns_example = group_by_anidb_id-AreRuns three_parts

sort_anidb_titles-IsStableSort_example :
    IsStableSort
      (IsAny even (codes "llama") (codes "2020"))
      (comes_first even (codes "llama") (codes "2020"))
      three_titles
      (sort_anidb_titles even (codes "llama") (codes "2020") three_titles)
sort_anidb_titles-IsStableSort_example =
    sort_anidb_titles-IsStableSort even (codes "llama") (codes "2020") three_titles

to_tvdb_absolute_range_example :
    to_tvdb_absolute_range three_parts (pos 1) (pos 2) (pos 7)
    ≡ both_starts (get_tvdb_absolute_episode three_parts (pos 1) (pos 2))
to_tvdb_absolute_range_example = to_tvdb_absolute_range_lem three_parts (pos 1) (pos 2) (pos 7)

scan_map-map_value_example :
    scan_map [] (map_value ((pos 1, pos 5 ∷ pos 6 ∷ []) ∷ (pos 2, pos 7 ∷ []) ∷ []))
    ≡ (pos 1, pos 5 ∷ pos 6 ∷ []) ∷ (pos 2, pos 7 ∷ []) ∷ []
scan_map-map_value_example =
    scan_map-map_value ((pos 1, pos 5 ∷ pos 6 ∷ []) ∷ (pos 2, pos 7 ∷ []) ∷ [])
      (
        (omega arith, (tt, (omega arith, (omega arith, tt)))),
        ((omega arith, (tt, (omega arith, tt))), tt),
      )
      (((refl, tt), tt), (tt, tt))

absolute_maps-IsRange_example : All (IsRange (pos 3) (pos 20)) (
    absolute_maps
      (group_by_anidb_id three_parts)
      three_titles
      (torrent [] (pos 3 ∷ pos 20 ∷ []))
      (pos 3)
      (pos 20))
absolute_maps-IsRange_example =
    absolute_maps-IsRange (group_by_anidb_id three_parts) three_titles
      (torrent [] (pos 3 ∷ pos 20 ∷ [])) (pos 3) (pos 20)
      (unfold group_by_anidb_id bytes_eq in
        ((refl, (refl, tt)), ((refl, (refl, tt)), ((refl, (refl, tt)), tt))))

season_maps-AreNear_example :
    Yields
      (AreOf (
        IsNear
          (asked_of three_parts three_titles (torrent (pos 2 ∷ []) []))
          three_titles
          (torrent (pos 2 ∷ []) [])))
      (season_maps
        (asked_of three_parts three_titles (torrent (pos 2 ∷ []) []))
        (group_by_anidb_id three_parts)
        three_titles
        (torrent (pos 2 ∷ []) []))
unfolding bytes_eq asked_of
season_maps-AreNear_example =
    season_maps-AreNear (asked_of three_parts three_titles (torrent (pos 2 ∷ []) [])) three_titles
      (torrent (pos 2 ∷ []) []) (group_by_anidb_id three_parts)
      (unfold group_by_anidb_id absolute_map in (refl, (refl, (refl, tt))))
