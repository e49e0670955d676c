-- ===== src/Anime/Offsets.antt =====
-- Episodes of a season in the absolute order, in internal/anidb/tvdb_episode_map.db.go.
use resolver_addon.Prelude.{◌≡◌, refl, ap, List, Option, none, some, arith}
use resolver_addon.Prelude.Int.{ℤ, ◌+ℤ◌, ◌-ℤ◌, +ℤ_parts, -ℤ_parts, eq_of_parts}
use resolver_addon.Anime.{
  EpisodeMap, absolute_map, map_of_season, range_from, get_tvdb_absolute_episode, absolute_from,
  to_tvdb_absolute_range,
}

twice : (a b : ℤ) → a +ℤ (b -ℤ a) ≡ b
twice a b = eq_of_parts _ _ (omega (arith, +ℤ_parts a (b -ℤ a), -ℤ_parts b a))

abbrev pub both_starts : Option ℤ → Option (ℤ × ℤ)
both_starts none = none
both_starts (some ep) = some (ep, ep)

-- ToTVDBAbsoluteRange gives the absolute episode of the first episode as both ends, whatever the last is; where
-- the season has no map, both are -1.
pub to_tvdb_absolute_range_lem :
    (ms : List EpisodeMap) (season first last : ℤ)
    → to_tvdb_absolute_range ms season first last
      ≡ both_starts (get_tvdb_absolute_episode ms season first)
unfolding to_tvdb_absolute_range get_tvdb_absolute_episode
to_tvdb_absolute_range_lem ms season first last = go (map_of_season ms season) (absolute_map ms)
  where
    go :
        (m a : Option EpisodeMap)
        → range_from m a first last ≡ both_starts (absolute_from m a first)
    go none a = refl
    go (some m) none = refl
    go (some m) (some a) = ap (λ e. some (first -ℤ m.offset +ℤ a.offset, e)) (twice last _)
