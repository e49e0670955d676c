-- ===== src/Anime/Torrent/Seasons/Near.antt =====
-- The branch for seasons of internal/worker/map_anidb_torrent.go gives maps, and only of anime that are near
-- the year of the torrent.
use resolver_addon.Prelude.{
  ◌≡◌, refl, true, not, ◌||◌, List, [], ◌∷◌, Option, none, some, All, inl, inr, Bool-cases,
}
use resolver_addon.Prelude.Affix.{is_some}
use resolver_addon.Prelude.Bytes.{Bytes}
use resolver_addon.Anime.{absolute_map}
use resolver_addon.Anime.Groups.{Group}
use resolver_addon.Anime.Titles.{AnidbTitle}
use resolver_addon.Anime.Torrent.{TorrentInfo, is_near}
use resolver_addon.Anime.Torrent.Seasons.{
  Loop, steps, in_group, at_group, groups_loop, result, start_loop, season_maps,
}
use resolver_addon.Anime.Torrent.Seasons.Match.{Asked}
use resolver_addon.Anime.Torrent.Seasons.Keeps.{Yields, then_some, AreOf, Keeps, steps-Keeps}

module _ (asked : Asked) (titles : List AnidbTitle) (info : TorrentInfo) where
  abbrev pub IsNear : Bytes → Type 0
  IsNear id = is_near titles info id ≡ true

  -- The group has an absolute order, if the episodes of the torrent are of it.
  abbrev pub IsSafe : Group → Type 0
  IsSafe g = (not asked.are_absolute || is_some (absolute_map g.tvdb_episode_maps)) ≡ true

  groups_loop-AreNear :
      (groups : List Group) (s : Loop)
      → All IsSafe groups
      → AreOf IsNear s.t_maps
      → Yields (λ r. AreOf IsNear r.t_maps) (groups_loop asked titles info groups s)
  unfolding groups_loop
  groups_loop-AreNear [] s h k = k
  groups_loop-AreNear (g ∷ groups) s (hg, h) k =
      elim (Bool-cases (is_near titles info g.anidb_id)) [
        | inr off ↦ rw off (groups_loop-AreNear groups s h k)
        | inl on ↦ rw on (
            then_some (Keeps IsNear asked (in_group asked titles g) on refl hg) _
              (steps asked (in_group asked titles g) g.tvdb_episode_maps (at_group s))
              (groups_loop asked titles info groups)
              (steps-Keeps IsNear asked (in_group asked titles g) on refl hg g.tvdb_episode_maps
                (at_group s) record { maps = k; known = refl })
              (λ s' k'. groups_loop-AreNear groups s' h k'.maps))
      ]

  result-AreNear :
      (o : Option Loop) → Yields (λ r. AreOf IsNear r.t_maps) o → Yields (AreOf IsNear) (result o)
  result-AreNear none h = h
  result-AreNear (some s) h = h

  -- If the episodes of the torrent are not absolute, or each group has an absolute order, then the branch for
  -- seasons gives maps and does not panic, and each map is of an anime that starts near the year of the torrent:
  -- one of the years is not known, or they differ by at most the threshold.
  pub season_maps-AreNear :
      (groups : List Group)
      → All IsSafe groups
      → Yields (AreOf IsNear) (season_maps asked groups titles info)
  unfolding season_maps
  season_maps-AreNear groups h = result-AreNear _ (groups_loop-AreNear groups start_loop h tt)
