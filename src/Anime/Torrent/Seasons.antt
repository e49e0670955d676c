-- ===== src/Anime/Torrent/Seasons.antt =====
-- prepareAniDBTorrentMaps of internal/worker/map_anidb_torrent.go, for a torrent with seasons. A nil map whose
-- method is called panics: none.
pub mod Match
pub mod Keeps
pub mod Near
use resolver_addon.Prelude.{
  ℕ, ◌+◌, ◌≤◌, Bool, true, false, not, ◌&&◌, ◌||◌, List, [], ◌∷◌, ◌++◌, Option, none, some,
  if◌then◌else◌, length,
}
use resolver_addon.Prelude.Bytes.{Bytes}
use resolver_addon.Prelude.Int.{ℤ, pos, negsuc, ltb_ℤ, eqb_ℤ, ◌+ℤ◌, ◌-ℤ◌}
use resolver_addon.Anime.{
  EpisodeMap, none_ℤ, leb_ℤ, is_zero, has_number, among, absolute_map, tvdb_episode_start,
  tvdb_episode_end, to_tvdb_absolute_range, has_splited_tv_seasons,
}
use resolver_addon.Anime.Groups.{Group}
use resolver_addon.Anime.Titles.{AnidbTitle, get_season}
use resolver_addon.Anime.Torrent.{
  TorrentMap, TorrentSeasonType, torrent_map, with_episodes, TorrentInfo, is_near, max_ℤ, min_ℤ,
  update_at,
}
use resolver_addon.Anime.Torrent.Absolute.{end_or}
use resolver_addon.Anime.Torrent.Seasons.Match.{Asked, is_anime_season, is_tv_season}

-- The variables of the loops: the maps so far, the ids that are seen, and in a group the indices of the maps
-- of the anime and of the absolute order.
pub record Loop : Type 0 where
  pub t_maps : List TorrentMap
  pub id_seen : List Bytes
  pub anime_idx : Option ℕ
  pub absolute_idx : Option ℕ

-- What the loop over the maps of a group reads.
pub record InGroup : Type 0 where
  pub group : Group
  pub anime_season : ℤ
  pub matched : Bool
  pub absolute : Option EpisodeMap

abbrev pub snoc : List TorrentMap → TorrentMap → List TorrentMap
snoc ms m = ms ++ m ∷ []

-- The absolute range of the torrent within that of the map, if there is one.
abbrev pub within : EpisodeMap → Option (ℤ × ℤ) → Option (Option (ℤ × ℤ))
within a none = none
within a (some r) =
    let start = max_ℤ (tvdb_episode_start a) r.0 in
    let end = end_or (min_ℤ (tvdb_episode_end a) r.1) r.1 in
    some (if leb_ℤ start end then some (start, end) else none)

abbrev pub absolute_range : Asked → Group → EpisodeMap → Option (Option (ℤ × ℤ))
absolute_range asked g a =
    if not asked.has_episodes
    then some (some (tvdb_episode_start a, tvdb_episode_end a))
    else if asked.are_absolute
    then within a (some (asked.first, asked.last))
    else within a
        (to_tvdb_absolute_range g.tvdb_episode_maps asked.first_season asked.first asked.last)

-- The map of the absolute order, and that of the anime with the episodes that it then has.
abbrev pub with_range : EpisodeMap → TorrentMap → Option (ℤ × ℤ) → Option TorrentMap × TorrentMap
with_range a anime none = (none, anime)
with_range a anime (some r) =
    let absolute = torrent_map anime.anidb_id TorrentSeasonType.abs a.tvdb_season in
    if ltb_ℤ (pos 0) r.0 && ltb_ℤ (pos 0) r.1
    then (
      some (with_episodes absolute r.0 r.1),
      with_episodes anime (r.0 -ℤ a.offset) (r.1 -ℤ a.offset),
    )
    else (some absolute, anime)

abbrev pub range_of :
    EpisodeMap → TorrentMap → Option (Option (ℤ × ℤ)) → Option (Option TorrentMap × TorrentMap)
range_of a anime none = none
range_of a anime (some r) = some (with_range a anime r)

abbrev pub maps_in :
    Asked → Group → TorrentMap → Option EpisodeMap → Option (Option TorrentMap × TorrentMap)
maps_in asked g anime none = some (none, anime)
maps_in asked g anime (some a) = range_of a anime (absolute_range asked g a)

abbrev pub new_maps :
    Asked → InGroup → EpisodeMap → TorrentMap → Option (Option TorrentMap × TorrentMap)
new_maps asked g m anime =
    if asked.has_absolute
    then maps_in asked g.group anime g.absolute
    else if asked.has_episodes && not (has_splited_tv_seasons g.group.tvdb_episode_maps)
    then some (none, with_episodes anime (asked.first -ℤ m.offset) (asked.last -ℤ m.offset))
    else some (none, anime)

-- The season of an anime that has no season in its titles.
abbrev pub season_or_first : EpisodeMap → TorrentMap → TorrentMap
season_or_first m anime =
    if eqb_ℤ anime.season none_ℤ && (eqb_ℤ m.anidb_season (pos 1) && eqb_ℤ m.tvdb_season (pos 1))
    then record anime { season = pos 1 }
    else anime

abbrev pub add_absolute : Option TorrentMap → Loop → Loop
add_absolute none s = s
add_absolute (some t) s = record s {
  t_maps = snoc s.t_maps t;
  absolute_idx = some (length s.t_maps);
}

abbrev pub add_anime : TorrentMap → Loop → Loop
add_anime t s =
    if eqb_ℤ t.season none_ℤ
    then s
    else record s { t_maps = snoc s.t_maps t; anime_idx = some (length s.t_maps) }

abbrev pub add_new : EpisodeMap → Loop → Option (Option TorrentMap × TorrentMap) → Option Loop
add_new m s none = none
add_new m s (some r) = some (add_anime (season_or_first m r.1) (add_absolute r.0 s))

-- The first map of an id in a season of the torrent gives the maps of the absolute order and of the anime.
abbrev pub at_first_map : Asked → InGroup → EpisodeMap → Loop → Option Loop
at_first_map asked g m s =
    let id = g.group.anidb_id in
    if among s.id_seen id
    then some s
    else add_new m (record s { id_seen = id ∷ s.id_seen })
        (new_maps asked g m (torrent_map id TorrentSeasonType.ani g.anime_season))

-- The range of the map is added to that of a map before.
abbrev pub widen : ℤ → ℤ → TorrentMap → TorrentMap
widen start end t = record t {
  episode_start = if is_zero t.episode_start then start else t.episode_start;
  episode_end = end;
}

abbrev pub widen_absolute :
    EpisodeMap → Option EpisodeMap → Option ℕ → List TorrentMap → Option (List TorrentMap)
widen_absolute m a none t_maps = some t_maps
widen_absolute m none (some i) t_maps = none
widen_absolute m (some a) (some i) t_maps =
    some (update_at i (widen (m.start +ℤ a.offset) (m.end +ℤ a.offset)) t_maps)

abbrev pub widen_anime : EpisodeMap → Option ℕ → List TorrentMap → List TorrentMap
widen_anime m none t_maps = t_maps
widen_anime m (some i) t_maps = update_at i (widen m.start m.end) t_maps

abbrev pub add_season :
    Bytes → EpisodeMap → Option ℕ → Option (List TorrentMap) → Option (List TorrentMap)
add_season id m idx none = none
add_season id m idx (some t_maps) =
    let t = torrent_map id TorrentSeasonType.tv m.tvdb_season in
    some (
      snoc (widen_anime m idx t_maps) (
        if is_zero m.start || is_zero m.end
        then t
        else with_episodes t (tvdb_episode_start m) (tvdb_episode_end m)))

-- The episodes of the torrent in its season.
abbrev pub absolute_episodes : Asked → TorrentMap → Option EpisodeMap → Option TorrentMap
absolute_episodes asked t none = none
absolute_episodes asked t (some a) =
    some (with_episodes t (asked.first -ℤ a.offset) (asked.last -ℤ a.offset))

abbrev pub own_episodes : Asked → Option EpisodeMap → TorrentMap → Option TorrentMap
own_episodes asked absolute t =
    if not asked.are_absolute
    then some (with_episodes t asked.first asked.last)
    else absolute_episodes asked t absolute

abbrev pub add_own : List TorrentMap → Option TorrentMap → Option (List TorrentMap)
add_own t_maps none = none
add_own t_maps (some t) = some (snoc t_maps t)

abbrev pub season_maps_of : Asked → InGroup → EpisodeMap → Loop → Option (List TorrentMap)
season_maps_of asked g m s =
    let id = g.group.anidb_id in
    if asked.has_episodes
    then add_own s.t_maps
        (own_episodes asked g.absolute (torrent_map id TorrentSeasonType.tv m.tvdb_season))
    else add_season id m s.anime_idx (widen_absolute m g.absolute s.absolute_idx s.t_maps)

abbrev pub with_t_maps : Loop → Option (List TorrentMap) → Option Loop
with_t_maps s none = none
with_t_maps s (some t_maps) = some (record s { t_maps = t_maps })

abbrev pub and_season : Asked → InGroup → EpisodeMap → Option Loop → Option Loop
and_season asked g m none = none
and_season asked g m (some s) = with_t_maps s (season_maps_of asked g m s)

abbrev pub tv_step : Asked → InGroup → EpisodeMap → Loop → Option Loop
tv_step asked g m s = and_season asked g m (at_first_map asked g m s)

abbrev pub anime_maps : Bytes → ℤ → Option EpisodeMap → List TorrentMap
anime_maps id season none = torrent_map id TorrentSeasonType.ani season ∷ []
anime_maps id season (some a) =
    with_episodes (torrent_map id TorrentSeasonType.abs a.tvdb_season) (tvdb_episode_start a)
      (tvdb_episode_end a)
    ∷ with_episodes (torrent_map id TorrentSeasonType.ani season) a.start a.end
    ∷ []

abbrev pub at_first_anime : Asked → InGroup → Loop → Loop
at_first_anime asked g s =
    let id = g.group.anidb_id in
    if among s.id_seen id then s else record s {
      id_seen = id ∷ s.id_seen;
      t_maps =
          s.t_maps
          ++ anime_maps id g.anime_season (if asked.has_absolute then g.absolute else none);
    }

abbrev pub add_tv : Bytes → EpisodeMap → Loop → Loop
add_tv id m s = if eqb_ℤ m.tvdb_season none_ℤ then s else record s {
  t_maps = snoc s.t_maps (
      with_episodes (torrent_map id TorrentSeasonType.tv m.tvdb_season) (tvdb_episode_start m)
        (tvdb_episode_end m));
}

abbrev pub anime_step : Asked → InGroup → EpisodeMap → Loop → Loop
anime_step asked g m s = add_tv g.group.anidb_id m (at_first_anime asked g s)

abbrev pub step_if : Asked → InGroup → EpisodeMap → Loop → Option Bool → Option Loop
step_if asked g m s none = none
step_if asked g m s (some is_tv) =
    if is_tv
    then tv_step asked g m s
    else if is_anime_season asked g.matched g.absolute m
    then some (anime_step asked g m s)
    else some s

abbrev pub step : Asked → InGroup → EpisodeMap → Loop → Option Loop
step asked g m s = step_if asked g m s (is_tv_season asked g.absolute m)

unfoldable pub steps : Asked → InGroup → List EpisodeMap → Loop → Option Loop
steps asked g [] s = some s
steps asked g (m ∷ ms) s = elim (step asked g m s) [ none ↦ none | some s' ↦ steps asked g ms s' ]

abbrev pub in_group : Asked → List AnidbTitle → Group → InGroup
in_group asked titles g =
    let season = get_season titles g.anidb_id in
    record {
      group = g;
      anime_season = season;
      matched = asked.can_be_anime && has_number asked.seasons season;
      absolute = absolute_map g.tvdb_episode_maps;
    }

abbrev pub at_group : Loop → Loop
at_group s = record s { anime_idx = none; absolute_idx = none }

unfoldable pub groups_loop : Asked → List AnidbTitle → TorrentInfo → List Group → Loop → Option Loop
unfolding is_near absolute_map
groups_loop asked titles info [] s = some s
groups_loop asked titles info (g ∷ groups) s =
    let skipped = groups_loop asked titles info groups s in
    let taken : Option Loop =
      elim (steps asked (in_group asked titles g) g.tvdb_episode_maps (at_group s)) [
        | none ↦ none
        | some s' ↦ groups_loop asked titles info groups s'
      ] in
    if is_near titles info g.anidb_id then taken else skipped

abbrev pub result : Option Loop → Option (List TorrentMap)
result none = none
result (some s) = some s.t_maps

abbrev pub start_loop : Loop
start_loop = record { t_maps = []; id_seen = []; anime_idx = none; absolute_idx = none }

unfoldable pub season_maps :
    Asked → List Group → List AnidbTitle → TorrentInfo → Option (List TorrentMap)
unfolding groups_loop steps
season_maps asked groups titles info = result (groups_loop asked titles info groups start_loop)
