-- ===== src/Anime/Torrent/Prepare.antt =====
-- prepareAniDBTorrentMaps of internal/worker/map_anidb_torrent.go: the maps of a torrent, of the maps of its
-- series and their titles. A call that panics has none.
use resolver_addon.Prelude.{List, [], ◌∷◌, Option, some, if◌then◌else◌}
use resolver_addon.Prelude.Bytes.{Bytes}
use resolver_addon.Prelude.Int.{ℤ}
use resolver_addon.Anime.{EpisodeMap, any_absolute}
use resolver_addon.Anime.Groups.{group_by_anidb_id}
use resolver_addon.Anime.Titles.{AnidbTitle}
use resolver_addon.Anime.Torrent.{TorrentMap, TorrentInfo, last_episode}
use resolver_addon.Anime.Torrent.Plain.{plain_maps, sorted_titles}
use resolver_addon.Anime.Torrent.Absolute.{absolute_maps}
use resolver_addon.Anime.Torrent.Joined.{joined_maps}
use resolver_addon.Anime.Torrent.Seasons.{season_maps}
use resolver_addon.Anime.Torrent.Seasons.Match.{asked_of}

module _ (distance : Bytes → Bytes → ℤ) where
  -- The episodes run from `first` to `last`.
  abbrev pub episode_maps :
      List EpisodeMap → List AnidbTitle → TorrentInfo → (first last : ℤ) → Option (List TorrentMap)
  episode_maps ms titles info first last =
      if any_absolute ms
      then some (absolute_maps (group_by_anidb_id ms) titles info first last)
      else joined_maps ms (sorted_titles distance titles info) info first last

  abbrev by_lists :
      List EpisodeMap → List AnidbTitle → TorrentInfo → List ℤ → List ℤ → Option (List TorrentMap)
  by_lists ms titles info [] [] = some (plain_maps distance (group_by_anidb_id ms) titles info)
  by_lists ms titles info (s ∷ seasons) episodes =
      season_maps (asked_of ms titles info) (group_by_anidb_id ms) titles info
  by_lists ms titles info [] (first ∷ episodes) =
      episode_maps ms titles info first (last_episode first episodes)

  -- prepareAniDBTorrentMaps
  unfoldable pub prepare_torrent_maps :
      List EpisodeMap → List AnidbTitle → TorrentInfo → Option (List TorrentMap)
  unfolding plain_maps absolute_maps joined_maps season_maps asked_of group_by_anidb_id
  prepare_torrent_maps ms titles info = by_lists ms titles info info.seasons info.episodes
