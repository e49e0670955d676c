-- ===== src/Anime/Torrent/Absolute/Bounds.antt =====
-- The ranges that the branch for the absolute order of internal/worker/map_anidb_torrent.go gives.
use resolver_addon.Prelude.{
  ◌≡◌, Bool, true, not, ◌&&◌, ◌||◌, List, [], ◌∷◌, if◌then◌else◌, All, arith, inl, inr, Bool-cases,
  All-append,
}
use resolver_addon.Prelude.Bytes.{Bytes}
use resolver_addon.Prelude.Int.{ℤ, pos, ltb_ℤ, ◌+ℤ◌, ◌≤ℤ◌, +ℤ_parts, -ℤ_parts}
use resolver_addon.Anime.{
  EpisodeMap, leb_ℤ, has_absolute_order, any_absolute, tvdb_episode_start, tvdb_episode_end,
}
use resolver_addon.Anime.Groups.{Group}
use resolver_addon.Anime.Titles.{AnidbTitle, get_season}
use resolver_addon.Anime.Torrent.{TorrentMap, TorrentSeasonType, TorrentInfo, max_ℤ, min_ℤ, is_near}
use resolver_addon.Anime.Torrent.Absolute.{
  Loop, add_absolute, absolute_step, step, steps, at_group, groups_loop, at_first, absolute_maps,
  end_or, add_tv,
}

-- An episode of the absolute order is one of the torrent.
abbrev pub IsWithin : ℤ → ℤ → TorrentSeasonType → ℤ → ℤ → Type 0
IsWithin first last TorrentSeasonType.abs start end = (first ≤ℤ start) × (end ≤ℤ last)
IsWithin first last TorrentSeasonType.tv start end = Unit
IsWithin first last TorrentSeasonType.ani start end = Unit

abbrev pub IsRange : ℤ → ℤ → TorrentMap → Type 0
IsRange first last t =
    (t.episode_start ≤ℤ t.episode_end)
    × IsWithin first last t.season_type t.episode_start t.episode_end

-- An absolute order has no offset below 0.
abbrev pub IsForward : EpisodeMap → Type 0
IsForward m = (not (has_absolute_order m) || leb_ℤ (pos 0) m.offset) ≡ true

module _ (from last : ℤ) where
  record AreRanges (s : Loop) : Type 0 where
    ranges : All (IsRange from last) s.t_maps
    ahead : from ≤ℤ s.first

  add_absolute-AreRanges :
      (id : Bytes) (season : ℤ) (m : EpisodeMap) (start end : ℤ) (s : Loop)
      → pos 0 ≤ℤ m.offset
      → start ≤ℤ end
      → from ≤ℤ start
      → end ≤ℤ last
      → AreRanges s
      → AreRanges (add_absolute id season m start end s)
  add_absolute-AreRanges id season m start end s forward h hs he r = record {
    ranges =
        All-append (IsRange from last) s.t_maps _ r.ranges (
          (h, (hs, he)),
          ((omega (arith, -ℤ_parts start m.offset, -ℤ_parts end m.offset), tt), tt),
        );
    ahead = omega (arith, +ℤ_parts end m.offset, +ℤ_parts (end +ℤ m.offset) (pos 1));
  }

  absolute_if-AreRanges :
      (id : Bytes) (season : ℤ) (m : EpisodeMap) (start end : ℤ) (s : Loop)
      → pos 0 ≤ℤ m.offset
      → from ≤ℤ start
      → end ≤ℤ last
      → AreRanges s
      → AreRanges (if leb_ℤ start end then add_absolute id season m start end s else s)
  absolute_if-AreRanges id season m start end s forward hs he r =
      elim (Bool-cases (leb_ℤ start end)) [
        | inl on ↦
            rw on
              (add_absolute-AreRanges id season m start end s forward (ground (arith, on)) hs he r)
        | inr off ↦ rw off r
      ]

  absolute_step-AreRanges :
      (id : Bytes) (season : ℤ) (m : EpisodeMap) (s : Loop)
      → pos 0 ≤ℤ m.offset
      → AreRanges s
      → AreRanges (absolute_step id season last m s)
  absolute_step-AreRanges id season m s forward r =
      absolute_if-AreRanges id season m (max_ℤ (tvdb_episode_start m) s.first)
        (end_or (min_ℤ (tvdb_episode_end m) last) last) s forward (ground (arith, r.ahead))
        (ground arith) r

  add_tv-ranges :
      (id : Bytes) (m : EpisodeMap) (start end : ℤ) (s : Loop)
      → start ≤ℤ end
      → AreRanges s
      → All (IsRange from last) (add_tv id m start end s.t_maps)
  add_tv-ranges id m start end s h r =
      All-append (IsRange from last) s.t_maps _ r.ranges
        ((omega (arith, +ℤ_parts start m.offset, +ℤ_parts end m.offset), tt), tt)

  tv_if-AreRanges :
      (id : Bytes) (m : EpisodeMap) (s : Loop) (start end : ℤ) (rest : Bool)
      → s.ani_start ≤ℤ s.ani_end
      → AreRanges s
      → AreRanges (
          if leb_ℤ start end
          then record s { t_maps = add_tv id m start end s.t_maps; ani_start = end +ℤ pos 1 }
          else if rest
          then record s { t_maps = add_tv id m s.ani_start s.ani_end s.t_maps }
          else s)
  tv_if-AreRanges id m s start end rest h r = elim (Bool-cases (leb_ℤ start end)) [
    | inl on ↦
        rw on
          record { ranges = add_tv-ranges id m start end s (ground (arith, on)) r; ahead = r.ahead }
    | inr off ↦ rw off (elim (Bool-cases rest) [
      | inl more ↦
          rw more
            record { ranges = add_tv-ranges id m s.ani_start s.ani_end s h r; ahead = r.ahead }
      | inr no_more ↦ rw no_more r
    ])
  ]

  step-AreRanges :
      (id : Bytes) (season : ℤ) (m : EpisodeMap) (s : Loop)
      → IsForward m
      → AreRanges s
      → AreRanges (step id season last m s)
  step-AreRanges id season m s forward r = elim (Bool-cases (has_absolute_order m)) [
    | inl on ↦ rw on (absolute_step-AreRanges id season m s (ground (arith, forward, on)) r)
    | inr off ↦ elim (Bool-cases (ltb_ℤ (pos 0) s.ani_start && leb_ℤ s.ani_start s.ani_end)) [
      | inl some_left ↦
          rw (off, some_left)
            (tv_if-AreRanges id m s (max_ℤ s.ani_start m.start) (min_ℤ s.ani_end m.end) _
              (ground (arith, some_left)) r)
      | inr none_left ↦ rw (off, none_left) r
    ]
  ]

  steps-AreRanges :
      (id : Bytes) (season : ℤ) (ms : List EpisodeMap) (s : Loop)
      → All IsForward ms
      → AreRanges s
      → AreRanges (steps id season last ms s)
  unfolding steps
  steps-AreRanges id season [] s h r = r
  steps-AreRanges id season (m ∷ ms) s (hm, h) r =
      steps-AreRanges id season ms (step id season last m s) h (step-AreRanges id season m s hm r)

  groups_loop-AreRanges :
      (titles : List AnidbTitle) (info : TorrentInfo) (groups : List Group) (s : Loop)
      → All (λ g. All IsForward g.tvdb_episode_maps) groups
      → AreRanges s
      → AreRanges (groups_loop titles info last groups s)
  unfolding groups_loop
  groups_loop-AreRanges titles info [] s h r = r
  groups_loop-AreRanges titles info (g ∷ groups) s (hg, h) r =
      elim (Bool-cases (any_absolute g.tvdb_episode_maps && is_near titles info g.anidb_id)) [
        | inl on ↦ rw on (
            groups_loop-AreRanges titles info groups _ h (
              steps-AreRanges g.anidb_id (get_season titles g.anidb_id) g.tvdb_episode_maps
                (at_group s) hg record { ranges = r.ranges; ahead = r.ahead }))
        | inr off ↦ rw off (groups_loop-AreRanges titles info groups s h r)
      ]

-- Where no absolute order has an offset below 0, each map of the branch for the absolute order has its first
-- episode not behind its last, and a map in the absolute order has only episodes between the first and the last
-- of the torrent.
pub absolute_maps-IsRange :
    (groups : List Group) (titles : List AnidbTitle) (info : TorrentInfo) (first last : ℤ)
    → All (λ g. All IsForward g.tvdb_episode_maps) groups
    → All (IsRange first last) (absolute_maps groups titles info first last)
unfolding absolute_maps
absolute_maps-IsRange groups titles info first last h =
    (groups_loop-AreRanges first last titles info groups (at_first first) h
      record { ranges = tt; ahead = omega arith }).ranges
