-- ===== src/Anime/Torrent/Seasons/Match.antt =====
-- What a torrent with seasons asks for, and whether a map is of its seasons (isAnimeSeason and isTVSeason of
-- prepareAniDBTorrentMaps in internal/worker/map_anidb_torrent.go).
use resolver_addon.Prelude.{
  Bool, true, false, not, ◌&&◌, ◌||◌, List, [], ◌∷◌, Option, none, some, if◌then◌else◌,
}
use resolver_addon.Prelude.Int.{ℤ, pos, ltb_ℤ, eqb_ℤ}
use resolver_addon.Anime.{
  EpisodeMap, none_ℤ, leb_ℤ, is_zero, has_number, has_episode_range, any_absolute,
  are_absolute_episode, tvdb_episode_start, tvdb_episode_end,
}
use resolver_addon.Anime.Titles.{AnidbTitle, season_boundary}
use resolver_addon.Anime.Torrent.{TorrentInfo, last_episode}

pub record Asked : Type 0 where
  pub seasons : List ℤ
  pub first_season : ℤ
  pub one_season : Bool
  pub has_episodes : Bool
  pub one_episode : Bool
  pub first : ℤ
  pub last : ℤ
  pub has_absolute : Bool
  pub are_absolute : Bool
  pub can_be_anime : Bool

abbrev all_between : List ℤ → ℤ → ℤ → Bool
all_between [] low high = true
all_between (s ∷ seasons) low high =
    if ltb_ℤ s low || ltb_ℤ high s then false else all_between seasons low high

abbrev is_one : List ℤ → Bool
is_one [] = false
is_one (a ∷ []) = true
is_one (a ∷ b ∷ l) = false

abbrev is_some_ep : List ℤ → Bool
is_some_ep [] = false
is_some_ep (a ∷ l) = true

abbrev first_of : List ℤ → ℤ
first_of [] = none_ℤ
first_of (a ∷ l) = a

-- canBeAnimeSeason
abbrev can_be : List ℤ → List ℤ → Bool → ℤ × ℤ → Bool
can_be seasons episodes has_absolute boundary =
    not (is_one episodes)
    && (if not (is_some_ep episodes) && has_absolute
        then false
        else all_between seasons boundary.0 boundary.1)

unfoldable pub asked_of : List EpisodeMap → List AnidbTitle → TorrentInfo → Asked
asked_of ms titles info = record {
  seasons = info.seasons;
  first_season = first_of info.seasons;
  one_season = is_one info.seasons;
  has_episodes = is_some_ep info.episodes;
  one_episode = is_one info.episodes;
  first = first_of info.episodes;
  last = last_episode none_ℤ info.episodes;
  has_absolute = any_absolute ms;
  are_absolute =
      is_some_ep info.episodes && (any_absolute ms && are_absolute_episode ms info.episodes);
  can_be_anime = can_be info.seasons info.episodes (any_absolute ms) (season_boundary titles);
}

-- The episodes of the torrent are episodes of the map in the absolute order.
abbrev pub is_within : Asked → EpisodeMap → Bool
is_within asked a =
    leb_ℤ (tvdb_episode_start a) asked.first && leb_ℤ asked.last (tvdb_episode_end a)

abbrev pub is_regular : EpisodeMap → Bool
is_regular m = ltb_ℤ (pos 0) m.anidb_season && ltb_ℤ (pos 0) m.tvdb_season

abbrev absolute_within : Asked → Option EpisodeMap → Bool
absolute_within asked none = false
absolute_within asked (some a) = is_within asked a

-- isAnimeSeason
unfoldable pub is_anime_season : Asked → Bool → Option EpisodeMap → EpisodeMap → Bool
is_anime_season asked matched absolute m =
    let is_anime = matched && is_regular m in
    if not asked.has_episodes
    then is_anime
    else is_anime
      && (asked.one_season
          && (if asked.are_absolute
              then absolute_within asked absolute
              else eqb_ℤ m.start asked.first && eqb_ℤ asked.last m.end))

abbrev pub in_season : Asked → EpisodeMap → Bool
in_season asked m =
    if has_episode_range m
    then (if asked.one_episode
        then is_within asked m
        else eqb_ℤ (tvdb_episode_start m) asked.first && eqb_ℤ asked.last (tvdb_episode_end m))
    else if not (is_zero m.end)
    then leb_ℤ asked.last (tvdb_episode_end m)
    else if not (is_zero m.start)
    then leb_ℤ (tvdb_episode_start m) asked.first
    else if not (is_zero m.offset)
    then ltb_ℤ (tvdb_episode_start m) asked.first
    else true

-- The group of a map without an absolute order has no map to ask.
abbrev pub in_absolute : Asked → Option EpisodeMap → Option Bool
in_absolute asked none = none
in_absolute asked (some a) = some (is_within asked a)

abbrev pub episodes_in : Asked → Option EpisodeMap → EpisodeMap → Option Bool
episodes_in asked absolute m =
    if not asked.are_absolute then some (in_season asked m) else in_absolute asked absolute

-- isTVSeason
unfoldable pub is_tv_season : Asked → Option EpisodeMap → EpisodeMap → Option Bool
is_tv_season asked absolute m =
    let is_tv = is_regular m && has_number asked.seasons m.tvdb_season in
    if not asked.has_episodes
    then some is_tv
    else if is_tv && asked.one_season
    then episodes_in asked absolute m
    else some false
