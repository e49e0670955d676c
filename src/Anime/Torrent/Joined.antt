-- ===== src/Anime/Torrent/Joined.antt =====
-- prepareAniDBTorrentMaps of internal/worker/map_anidb_torrent.go, for a torrent with episodes and no seasons,
-- of a series without an absolute order.
use resolver_addon.Prelude.{
  ℕ, Bool, ◌&&◌, ◌||◌, List, [], ◌∷◌, ◌++◌, Option, none, some, if◌then◌else◌, length,
}
use resolver_addon.Prelude.Assoc.{Assoc, find, store}
use resolver_addon.Prelude.Bytes.{Bytes, bytes_eq}
use resolver_addon.Prelude.Int.{ℤ, pos, eqb_ℤ, ◌+ℤ◌, ◌-ℤ◌}
use resolver_addon.Anime.{EpisodeMap, none_ℤ, leb_ℤ, is_zero, has_splited_tv_seasons, among}
use resolver_addon.Anime.Groups.{has_joined_tv_seasons}
use resolver_addon.Anime.Titles.{AnidbTitle, get_season}
use resolver_addon.Anime.Torrent.{
  TorrentMap, TorrentSeasonType, torrent_map, with_episodes, TorrentInfo, is_near, max_ℤ, min_ℤ,
  update_at,
}
use resolver_addon.Anime.Torrent.Absolute.{end_or}

-- What the loop reads.
pub record Target : Type 0 where
  pub title : AnidbTitle
  pub has_joined : Bool
  pub has_splited : Bool
  pub tvdb_season : ℤ
  pub anidb_ids : List Bytes
  pub last : ℤ

-- The maps so far, the first episode that is left, and the index of the map of each anime.
pub record Loop : Type 0 where
  pub t_maps : List TorrentMap
  pub first : ℤ
  pub idx_by_id : Assoc ℕ

unfoldable pub ids_like : AnidbTitle → List AnidbTitle → List Bytes
ids_like title [] = []
ids_like title (t ∷ titles) =
    let rest = ids_like title titles in
    if bytes_eq title.tid t.tid || bytes_eq title.season t.season then t.tid ∷ rest else rest

unfoldable pub season_of_title : AnidbTitle → List EpisodeMap → ℤ → ℤ
season_of_title title [] season = season
season_of_title title (m ∷ ms) season = season_of_title title ms (
    if bytes_eq m.anidb_id title.tid && eqb_ℤ m.anidb_season (pos 1) then m.tvdb_season else season)

abbrev pub target_of : List EpisodeMap → AnidbTitle → List AnidbTitle → ℤ → Target
target_of ms title titles last = record {
  title = title;
  has_joined = has_joined_tv_seasons ms;
  has_splited = has_splited_tv_seasons ms;
  tvdb_season = season_of_title title ms (pos 0);
  anidb_ids = ids_like title titles;
  last = last;
}

-- The maps that the loop does not pass over.
abbrev is_target : Target → EpisodeMap → Bool
is_target target m =
    among target.anidb_ids m.anidb_id
    && (eqb_ℤ m.anidb_season (pos 1)
        && (if target.has_joined
            then eqb_ℤ m.tvdb_season target.tvdb_season
            else bytes_eq m.anidb_id target.title.tid))

abbrev start_or : ℤ → ℤ → ℤ
start_or old start = if is_zero old then start else old

-- The range of the map of an anime after a map.
abbrev ranged : Target → EpisodeMap → ℤ → ℤ → TorrentMap → TorrentMap
ranged target m start end t =
    if target.has_splited
    then with_episodes t (start_or t.episode_start (start +ℤ m.offset)) end
    else if target.has_joined
    then with_episodes t (start_or t.episode_start (start -ℤ m.offset)) (end -ℤ m.offset)
    else with_episodes t start end

abbrev at_idx : Target → EpisodeMap → ℤ → ℤ → ℤ → Loop → Option ℕ → Loop
at_idx target m season start end s (some i) = record s {
  t_maps = update_at i (ranged target m start end) s.t_maps;
}
at_idx target m season start end s none = record s {
  t_maps =
      s.t_maps
      ++ ranged target m start end (torrent_map m.anidb_id TorrentSeasonType.ani season) ∷ [];
  idx_by_id = store s.idx_by_id m.anidb_id (length s.t_maps);
}

abbrev add_anime : Target → EpisodeMap → ℤ → ℤ → ℤ → Loop → Loop
add_anime target m season start end s =
    if eqb_ℤ season none_ℤ
    then s
    else at_idx target m season start end s (find s.idx_by_id m.anidb_id)

abbrev add_tv : EpisodeMap → ℤ → ℤ → Loop → Loop
add_tv m start end s = record s {
  t_maps =
      s.t_maps
      ++ with_episodes (torrent_map m.anidb_id TorrentSeasonType.tv m.tvdb_season) start end ∷ [];
  first = end +ℤ m.offset +ℤ pos 1;
}

abbrev pub step : Target → List AnidbTitle → EpisodeMap → Loop → Loop
step target titles m s =
    let start = max_ℤ m.start s.first in
    let end = end_or (min_ℤ m.end target.last) target.last in
    if leb_ℤ start end
    then add_tv m start end (add_anime target m (get_season titles m.anidb_id) start end s)
    else s

unfoldable pub steps : Target → List AnidbTitle → TorrentInfo → List EpisodeMap → Loop → Loop
steps target titles info [] s = s
steps target titles info (m ∷ ms) s =
    let skipped = steps target titles info ms s in
    let taken = steps target titles info ms (step target titles m s) in
    if is_target target m && is_near titles info m.anidb_id then taken else skipped

-- The first title of none panics.
unfoldable pub joined_maps :
    List EpisodeMap → List AnidbTitle → TorrentInfo → (first last : ℤ) → Option (List TorrentMap)
unfolding steps
joined_maps ms [] info first last = none
joined_maps ms (title ∷ others) info first last = some (
    (steps (target_of ms title (title ∷ others) last) (title ∷ others) info ms
      record { t_maps = []; first = first; idx_by_id = [] }).t_maps)
