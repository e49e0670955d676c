-- ===== src/Anime/Torrent/Absolute.antt =====
-- prepareAniDBTorrentMaps of internal/worker/map_anidb_torrent.go, for a torrent with episodes and no seasons,
-- of a series that has an absolute order.
pub mod Bounds
use resolver_addon.Prelude.{
  ◌≤◌, Bool, true, false, not, ◌&&◌, ◌||◌, List, [], ◌∷◌, ◌++◌, if◌then◌else◌,
}
use resolver_addon.Prelude.Bytes.{Bytes}
use resolver_addon.Prelude.Int.{ℤ, pos, negsuc, ltb_ℤ, eqb_ℤ, ◌+ℤ◌, ◌-ℤ◌}
use resolver_addon.Anime.{
  EpisodeMap, none_ℤ, leb_ℤ, is_zero, has_absolute_order, any_absolute, tvdb_episode_start,
  tvdb_episode_end,
}
use resolver_addon.Anime.Groups.{Group}
use resolver_addon.Anime.Titles.{AnidbTitle, get_season}
use resolver_addon.Anime.Torrent.{
  TorrentMap, TorrentSeasonType, torrent_map, with_episodes, TorrentInfo, is_near, max_ℤ, min_ℤ,
}

-- The variables of the loops: the maps so far, the first episode that is left, and the range of the anime.
pub record Loop : Type 0 where
  pub t_maps : List TorrentMap
  pub first : ℤ
  pub ani_start : ℤ
  pub ani_end : ℤ

abbrev pub end_or : ℤ → ℤ → ℤ
end_or end last = if is_zero end then last else end

abbrev absolute_start : EpisodeMap → Loop → ℤ
absolute_start m s = max_ℤ (tvdb_episode_start m) s.first

abbrev absolute_end : EpisodeMap → ℤ → ℤ
absolute_end m last = end_or (min_ℤ (tvdb_episode_end m) last) last

-- The range of the map in the absolute order, and that of the anime.
abbrev pub add_absolute : Bytes → ℤ → EpisodeMap → ℤ → ℤ → Loop → Loop
add_absolute id season m start end s = record {
  t_maps =
      s.t_maps
      ++ with_episodes (torrent_map id TorrentSeasonType.abs m.tvdb_season) start end
        ∷ with_episodes (torrent_map id TorrentSeasonType.ani season) (start -ℤ m.offset)
            (end -ℤ m.offset)
        ∷ [];
  first = end +ℤ m.offset +ℤ pos 1;
  ani_start = start -ℤ m.offset;
  ani_end = end -ℤ m.offset;
}

abbrev pub absolute_step : Bytes → ℤ → ℤ → EpisodeMap → Loop → Loop
absolute_step id season last m s =
    if leb_ℤ (absolute_start m s) (absolute_end m last)
    then add_absolute id season m (absolute_start m s) (absolute_end m last) s
    else s

abbrev pub add_tv : Bytes → EpisodeMap → ℤ → ℤ → List TorrentMap → List TorrentMap
add_tv id m start end t_maps =
    t_maps
    ++ with_episodes (torrent_map id TorrentSeasonType.tv m.tvdb_season) (start +ℤ m.offset)
        (end +ℤ m.offset)
      ∷ []

-- A season of the series takes what is left of the range of the anime.
abbrev pub tv_step : Bytes → EpisodeMap → Loop → Loop
tv_step id m s =
    let start = max_ℤ s.ani_start m.start in
    let end = min_ℤ s.ani_end m.end in
    if leb_ℤ start end
    then record s { t_maps = add_tv id m start end s.t_maps; ani_start = end +ℤ pos 1 }
    else if eqb_ℤ s.ani_start m.start && is_zero m.end
    then record s { t_maps = add_tv id m s.ani_start s.ani_end s.t_maps }
    else s

abbrev pub step : Bytes → ℤ → ℤ → EpisodeMap → Loop → Loop
step id season last m s =
    if has_absolute_order m
    then absolute_step id season last m s
    else if ltb_ℤ (pos 0) s.ani_start && leb_ℤ s.ani_start s.ani_end
    then tv_step id m s
    else s

unfoldable pub steps : Bytes → ℤ → ℤ → List EpisodeMap → Loop → Loop
steps id season last [] s = s
steps id season last (m ∷ ms) s = steps id season last ms (step id season last m s)

-- A group starts without a range of the anime.
abbrev pub at_group : Loop → Loop
at_group s = record s { ani_start = none_ℤ; ani_end = none_ℤ }

unfoldable pub groups_loop : List AnidbTitle → TorrentInfo → ℤ → List Group → Loop → Loop
groups_loop titles info last [] s = s
groups_loop titles info last (g ∷ groups) s =
    let skipped = groups_loop titles info last groups s in
    let taken =
      groups_loop titles info last groups
        (steps g.anidb_id (get_season titles g.anidb_id) last g.tvdb_episode_maps (at_group s)) in
    if any_absolute g.tvdb_episode_maps && is_near titles info g.anidb_id then taken else skipped

abbrev pub at_first : ℤ → Loop
at_first first = record { t_maps = []; first = first; ani_start = none_ℤ; ani_end = none_ℤ }

unfoldable pub absolute_maps :
    List Group → List AnidbTitle → TorrentInfo → (first last : ℤ) → List TorrentMap
unfolding groups_loop steps
absolute_maps groups titles info first last =
    (groups_loop titles info last groups (at_first first)).t_maps
