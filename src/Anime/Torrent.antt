-- ===== src/Anime/Torrent.antt =====
-- internal/worker/map_anidb_torrent.go: what a torrent says of itself, the maps that it gets, and the checks
-- that the branches of prepareAniDBTorrentMaps share.
pub mod Plain
pub mod Seasons
pub mod Absolute
pub mod Joined
pub mod Prepare
use resolver_addon.Prelude.{
  ℕ, zero, suc, ◌+◌, ◌≤◌, Bool, true, false, not, ◌&&◌, ◌||◌, List, [], ◌∷◌, ◌++◌, Option, none,
  some, if◌then◌else◌,
}
use resolver_addon.Prelude.Bytes.{Bytes}
use resolver_addon.Prelude.Decimal.{itoa}
use resolver_addon.Prelude.Int.{ℤ, pos, negsuc, ltb_ℤ, ◌+ℤ◌, ◌-ℤ◌}
use resolver_addon.Anime.{is_zero, leb_ℤ}
use resolver_addon.Anime.Titles.{AnidbTitle, get_year}

pub data TorrentSeasonType : Type 0 where
  abs tv ani : TorrentSeasonType

pub record TorrentMap : Type 0 where
  pub anidb_id : Bytes
  pub season_type : TorrentSeasonType
  pub season : ℤ
  pub episode_start : ℤ
  pub episode_end : ℤ
  pub episodes : List ℤ

-- A map without episodes.
abbrev pub torrent_map : Bytes → TorrentSeasonType → ℤ → TorrentMap
torrent_map id type season = record {
  anidb_id = id;
  season_type = type;
  season = season;
  episode_start = pos 0;
  episode_end = pos 0;
  episodes = [];
}

abbrev pub with_episodes : TorrentMap → ℤ → ℤ → TorrentMap
with_episodes m start end = record m { episode_start = start; episode_end = end }

-- What is read of a TorrentInfo; `is_movie` is the test of its category.
pub record TorrentInfo : Type 0 where
  pub title : Bytes
  pub torrent_title : Bytes
  pub is_movie : Bool
  pub release_types : List Bytes
  pub seasons : List ℤ
  pub episodes : List ℤ
  pub year : ℤ
  pub year_end : ℤ

abbrev pub max_ℤ : ℤ → ℤ → ℤ
max_ℤ a b = if ltb_ℤ a b then b else a

abbrev pub min_ℤ : ℤ → ℤ → ℤ
min_ℤ a b = if ltb_ℤ b a then b else a

abbrev pub year_threshold : TorrentInfo → ℤ
year_threshold info =
    if is_zero info.year
    then pos 0
    else (if is_zero info.year_end then pos 1 else info.year_end -ℤ info.year) +ℤ pos 2

-- tYear
abbrev pub year_text : TorrentInfo → Bytes
year_text info = if is_zero info.year then [] else itoa info.year

-- The anime is not skipped for its year.
unfoldable pub is_near : List AnidbTitle → TorrentInfo → Bytes → Bool
is_near titles info id =
    let anime_year = get_year titles id in
    let diff = anime_year -ℤ info.year in
    is_zero anime_year
    || (is_zero info.year || leb_ℤ (max_ℤ diff (pos 0 -ℤ diff)) (year_threshold info))

-- The last episode, of no episodes: `first` is that in front of them.
abbrev pub last_episode : ℤ → List ℤ → ℤ
last_episode first [] = first
last_episode first (ep ∷ eps) = last_episode ep eps

-- The map at an index is changed.
unfoldable pub update_at : ℕ → (TorrentMap → TorrentMap) → List TorrentMap → List TorrentMap
update_at i f [] = []
update_at zero f (m ∷ ms) = f m ∷ ms
update_at (suc i) f (m ∷ ms) = m ∷ update_at i f ms
