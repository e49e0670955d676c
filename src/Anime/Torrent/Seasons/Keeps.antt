-- ===== src/Anime/Torrent/Seasons/Keeps.antt =====
-- What the loop over the maps of a group keeps, in the branch for seasons of
-- internal/worker/map_anidb_torrent.go.
use resolver_addon.Prelude.{
  ◌≡◌, refl, ℕ, zero, suc, Bool, true, false, not, ◌&&◌, ◌||◌, List, [], ◌∷◌, Option, none, some,
  All, arith, inl, inr, Bool-cases, All-append, Option-cases,
}
use resolver_addon.Prelude.Affix.{is_some}
use resolver_addon.Prelude.Bytes.{Bytes}
use resolver_addon.Prelude.Int.{ℤ, pos, ltb_ℤ, eqb_ℤ}
use resolver_addon.Anime.{
  EpisodeMap, none_ℤ, is_zero, among, has_splited_tv_seasons, absolute_map, map_of_season,
  to_tvdb_absolute_range,
}
use resolver_addon.Anime.Groups.{Group}
use resolver_addon.Anime.Torrent.{TorrentMap, TorrentSeasonType, torrent_map, update_at}
use resolver_addon.Anime.Torrent.Seasons.{
  Loop, InGroup, within, absolute_range, with_range, range_of, maps_in, new_maps, season_or_first,
  add_absolute, add_anime, add_new, at_first_map, widen, widen_absolute, widen_anime, add_season,
  absolute_episodes, own_episodes, add_own, season_maps_of, with_t_maps, and_season, anime_maps,
  at_first_anime, add_tv, step_if, step, steps,
}
use resolver_addon.Anime.Torrent.Seasons.Match.{Asked, in_absolute, is_anime_season, is_tv_season}

-- There is a result, and it has the property.
abbrev pub Yields : {A : Type 0} → (A → Type 0) → Option A → Type 0
Yields P none = ⊥
Yields P (some a) = P a

within_some : (a : EpisodeMap) (r : Option (ℤ × ℤ)) → is_some r ≡ true → is_some (within a r) ≡ true
within_some a none h = absurd (ground (arith, h))
within_some a (some r) h = refl

range_some :
    (ms : List EpisodeMap) (season first last : ℤ) (a : EpisodeMap)
    → absolute_map ms ≡ some a
    → is_some (to_tvdb_absolute_range ms season first last) ≡ true
unfolding to_tvdb_absolute_range
range_some ms season first last a h = elim (Option-cases (map_of_season ms season)) [
  | inl e ↦ rw e refl
  | inr (m, e) ↦ rw (e, h) refl
]

absolute_range-some :
    (asked : Asked) (g : Group) (a : EpisodeMap)
    → absolute_map g.tvdb_episode_maps ≡ some a
    → is_some (absolute_range asked g a) ≡ true
absolute_range-some asked g a h = elim (Bool-cases asked.has_episodes) [
  | inr off ↦ rw off refl
  | inl on ↦ elim (Bool-cases asked.are_absolute) [
    | inl abs ↦ rw (on, abs) refl
    | inr rel ↦
        rw (on, rel)
          (within_some a _
            (range_some g.tvdb_episode_maps asked.first_season asked.first asked.last a h))
  ]
]

-- A result that is none is passed on.
pub then_some :
    {A B : Type 0} (P : A → Type 0) (R : B → Type 0) (o : Option A) (f : A → Option B)
    → Yields P o
    → ((a : A) → P a → Yields R (f a))
    → Yields R (elim o [ none ↦ none | some a ↦ f a ])
then_some P R none f h k = h
then_some P R (some a) f h k = k a h

module _ (Q : Bytes → Type 0) where
  abbrev pub AreOf : List TorrentMap → Type 0
  AreOf = All (λ t. Q t.anidb_id)

  abbrev IsOf : Option TorrentMap → Type 0
  IsOf none = Unit
  IsOf (some t) = Q t.anidb_id

  -- A map of the absolute order is given only where the group has one.
  abbrev AreNew : Option EpisodeMap → Option TorrentMap × TorrentMap → Type 0
  AreNew o r = IsOf r.0 × Q (r.1).anidb_id × ((not (is_some r.0) || is_some o) ≡ true)

  update_at-AreOf :
      (i : ℕ) (start end : ℤ) (ms : List TorrentMap)
      → AreOf ms
      → AreOf (update_at i (widen start end) ms)
  unfolding update_at
  update_at-AreOf i start end [] h = tt
  update_at-AreOf zero start end (m ∷ ms) (hm, h) = (hm, h)
  update_at-AreOf (suc i) start end (m ∷ ms) (hm, h) = (hm, update_at-AreOf i start end ms h)

  with_range-AreNew :
      (a : EpisodeMap) (anime : TorrentMap) (r : Option (ℤ × ℤ))
      → Q anime.anidb_id
      → AreNew (some a) (with_range a anime r)
  with_range-AreNew a anime none q = (tt, q, refl)
  with_range-AreNew a anime (some r) q =
      elim (Bool-cases (ltb_ℤ (pos 0) r.0 && ltb_ℤ (pos 0) r.1)) [
        | inl on ↦ rw on (q, q, refl)
        | inr off ↦ rw off (q, q, refl)
      ]

  range_of-AreNew :
      (a : EpisodeMap) (anime : TorrentMap) (o : Option (Option (ℤ × ℤ)))
      → is_some o ≡ true
      → Q anime.anidb_id
      → Yields (AreNew (some a)) (range_of a anime o)
  range_of-AreNew a anime none h q = absurd (ground (arith, h))
  range_of-AreNew a anime (some r) h q = with_range-AreNew a anime r q

  maps_in-AreNew :
      (asked : Asked) (g : Group) (anime : TorrentMap) (o : Option EpisodeMap)
      → absolute_map g.tvdb_episode_maps ≡ o
      → Q anime.anidb_id
      → Yields (AreNew o) (maps_in asked g anime o)
  maps_in-AreNew asked g anime none h q = (tt, q, refl)
  maps_in-AreNew asked g anime (some a) h q =
      range_of-AreNew a anime (absolute_range asked g a) (absolute_range-some asked g a h) q

  season_or_first-id :
      (m : EpisodeMap) (t : TorrentMap) → Q t.anidb_id → Q (season_or_first m t).anidb_id
  season_or_first-id m t q =
      elim (Bool-cases
        (eqb_ℤ t.season none_ℤ && (eqb_ℤ m.anidb_season (pos 1) && eqb_ℤ m.tvdb_season (pos 1)))) [
          | inl on ↦ rw on q
          | inr off ↦ rw off q
        ]

  module _ (asked : Asked) (g : InGroup) (q : Q (g.group).anidb_id)
      (link : absolute_map (g.group).tvdb_episode_maps ≡ g.absolute)
      (safe : (not asked.are_absolute || is_some g.absolute) ≡ true) where
    -- What the loop over the maps of the group keeps.
    pub record Keeps (s : Loop) : Type 0 where
      pub maps : AreOf s.t_maps
      pub known : (not (is_some s.absolute_idx) || is_some g.absolute) ≡ true

    new_maps-AreNew :
        (m : EpisodeMap) (anime : TorrentMap)
        → Q anime.anidb_id
        → Yields (AreNew g.absolute) (new_maps asked g m anime)
    new_maps-AreNew m anime qa = elim (Bool-cases asked.has_absolute) [
      | inl on ↦ rw on (maps_in-AreNew asked g.group anime g.absolute link qa)
      | inr off ↦
          elim (Bool-cases
            (asked.has_episodes && not (has_splited_tv_seasons (g.group).tvdb_episode_maps))) [
              | inl more ↦ rw (off, more) (tt, qa, refl)
              | inr less ↦ rw (off, less) (tt, qa, refl)
            ]
    ]

    add_absolute-Keeps :
        (o : Option TorrentMap) (s : Loop)
        → (not (is_some o) || is_some g.absolute) ≡ true
        → IsOf o
        → Keeps s
        → Keeps (add_absolute o s)
    add_absolute-Keeps none s e h k = k
    add_absolute-Keeps (some t) s e h k = record {
      maps = All-append _ s.t_maps (t ∷ []) k.maps (h, tt);
      known = e;
    }

    add_anime-Keeps : (t : TorrentMap) (s : Loop) → Q t.anidb_id → Keeps s → Keeps (add_anime t s)
    add_anime-Keeps t s h k = elim (Bool-cases (eqb_ℤ t.season none_ℤ)) [
      | inl on ↦ rw on k
      | inr off ↦
          rw off record { maps = All-append _ s.t_maps (t ∷ []) k.maps (h, tt); known = k.known }
    ]

    add_new-Keeps :
        (m : EpisodeMap) (s : Loop) (r : Option (Option TorrentMap × TorrentMap))
        → Yields (AreNew g.absolute) r
        → Keeps s
        → Yields Keeps (add_new m s r)
    add_new-Keeps m s none h k = h
    add_new-Keeps m s (some r) (old, new, e) k =
        add_anime-Keeps (season_or_first m r.1) (add_absolute r.0 s) (season_or_first-id m r.1 new)
          (add_absolute-Keeps r.0 s e old k)

    at_first_map-Keeps :
        (m : EpisodeMap) (s : Loop) → Keeps s → Yields Keeps (at_first_map asked g m s)
    at_first_map-Keeps m s k = elim (Bool-cases (among s.id_seen (g.group).anidb_id)) [
      | inl on ↦ rw on k
      | inr off ↦ rw off (
          add_new-Keeps m _ (new_maps asked g m _) (new_maps-AreNew m _ q)
            record { maps = k.maps; known = k.known })
    ]

    widen_absolute-AreOf :
        (m : EpisodeMap) (o : Option EpisodeMap) (idx : Option ℕ) (ms : List TorrentMap)
        → (not (is_some idx) || is_some o) ≡ true
        → AreOf ms
        → Yields AreOf (widen_absolute m o idx ms)
    widen_absolute-AreOf m o none ms e h = h
    widen_absolute-AreOf m none (some i) ms e h = absurd (ground (arith, e))
    widen_absolute-AreOf m (some a) (some i) ms e h = update_at-AreOf i _ _ ms h

    widen_anime-AreOf :
        (m : EpisodeMap) (idx : Option ℕ) (ms : List TorrentMap)
        → AreOf ms
        → AreOf (widen_anime m idx ms)
    widen_anime-AreOf m none ms h = h
    widen_anime-AreOf m (some i) ms h = update_at-AreOf i _ _ ms h

    add_season-AreOf :
        (m : EpisodeMap) (idx : Option ℕ) (o : Option (List TorrentMap))
        → Yields AreOf o
        → Yields AreOf (add_season (g.group).anidb_id m idx o)
    add_season-AreOf m idx none h = h
    add_season-AreOf m idx (some ms) h =
        All-append _ (widen_anime m idx ms) _ (widen_anime-AreOf m idx ms h)
          (elim (Bool-cases (is_zero m.start || is_zero m.end)) [
            | inl on ↦ rw on (q, tt)
            | inr off ↦ rw off (q, tt)
          ])

    absolute_episodes-AreOf :
        (t : TorrentMap) (o : Option EpisodeMap) (ms : List TorrentMap)
        → is_some o ≡ true
        → Q t.anidb_id
        → AreOf ms
        → Yields AreOf (add_own ms (absolute_episodes asked t o))
    absolute_episodes-AreOf t none ms e qt h = absurd (ground (arith, e))
    absolute_episodes-AreOf t (some a) ms e qt h = All-append _ ms _ h (qt, tt)

    own_episodes-AreOf :
        (t : TorrentMap) (ms : List TorrentMap)
        → Q t.anidb_id
        → AreOf ms
        → Yields AreOf (add_own ms (own_episodes asked g.absolute t))
    own_episodes-AreOf t ms qt h = elim (Bool-cases asked.are_absolute) [
      | inr off ↦ rw off (All-append _ ms _ h (qt, tt))
      | inl on ↦ rw on (absolute_episodes-AreOf t g.absolute ms (ground (arith, safe, on)) qt h)
    ]

    season_maps_of-AreOf :
        (m : EpisodeMap) (s : Loop) → Keeps s → Yields AreOf (season_maps_of asked g m s)
    season_maps_of-AreOf m s k = elim (Bool-cases asked.has_episodes) [
      | inl on ↦ rw on (
          own_episodes-AreOf (torrent_map (g.group).anidb_id TorrentSeasonType.tv m.tvdb_season)
            s.t_maps q k.maps)
      | inr off ↦ rw off (
          add_season-AreOf m s.anime_idx _
            (widen_absolute-AreOf m g.absolute s.absolute_idx s.t_maps k.known k.maps))
    ]

    with_t_maps-Keeps :
        (s : Loop) (o : Option (List TorrentMap))
        → Keeps s
        → Yields AreOf o
        → Yields Keeps (with_t_maps s o)
    with_t_maps-Keeps s none k h = h
    with_t_maps-Keeps s (some ms) k h = record { maps = h; known = k.known }

    and_season-Keeps :
        (m : EpisodeMap) (o : Option Loop) → Yields Keeps o → Yields Keeps (and_season asked g m o)
    and_season-Keeps m none h = h
    and_season-Keeps m (some s) k = with_t_maps-Keeps s _ k (season_maps_of-AreOf m s k)

    anime_maps-AreOf :
        (season : ℤ) (o : Option EpisodeMap) → AreOf (anime_maps (g.group).anidb_id season o)
    anime_maps-AreOf season none = (q, tt)
    anime_maps-AreOf season (some a) = (q, (q, tt))

    at_first_anime-Keeps : (s : Loop) → Keeps s → Keeps (at_first_anime asked g s)
    at_first_anime-Keeps s k = elim (Bool-cases (among s.id_seen (g.group).anidb_id)) [
      | inl on ↦ rw on k
      | inr off ↦ rw off record {
        maps = All-append _ s.t_maps _ k.maps (anime_maps-AreOf g.anime_season _);
        known = k.known;
      }
    ]

    add_tv-Keeps : (m : EpisodeMap) (s : Loop) → Keeps s → Keeps (add_tv (g.group).anidb_id m s)
    add_tv-Keeps m s k = elim (Bool-cases (eqb_ℤ m.tvdb_season none_ℤ)) [
      | inl on ↦ rw on k
      | inr off ↦ rw off record { maps = All-append _ s.t_maps _ k.maps (q, tt); known = k.known }
    ]

    step_if-Keeps :
        (m : EpisodeMap) (s : Loop) (o : Option Bool)
        → is_some o ≡ true
        → Keeps s
        → Yields Keeps (step_if asked g m s o)
    step_if-Keeps m s none e k = absurd (ground (arith, e))
    step_if-Keeps m s (some true) e k = and_season-Keeps m _ (at_first_map-Keeps m s k)
    step_if-Keeps m s (some false) e k =
        elim (Bool-cases (is_anime_season asked g.matched g.absolute m)) [
          | inl on ↦ rw on (add_tv-Keeps m _ (at_first_anime-Keeps s k))
          | inr off ↦ rw off k
        ]

    in_absolute_some :
        (o : Option EpisodeMap) → is_some o ≡ true → is_some (in_absolute asked o) ≡ true
    in_absolute_some none e = e
    in_absolute_some (some a) e = refl

    is_tv_season_some : (m : EpisodeMap) → is_some (is_tv_season asked g.absolute m) ≡ true
    unfolding is_tv_season
    is_tv_season_some m = ground (arith, safe, in_absolute_some g.absolute)

    pub steps-Keeps :
        (ms : List EpisodeMap) (s : Loop) → Keeps s → Yields Keeps (steps asked g ms s)
    unfolding steps
    steps-Keeps [] s k = k
    steps-Keeps (m ∷ ms) s k =
        then_some Keeps Keeps (step asked g m s) (steps asked g ms)
          (step_if-Keeps m s (is_tv_season asked g.absolute m) (is_tv_season_some m) k)
          (λ s' k'. steps-Keeps ms s' k')
