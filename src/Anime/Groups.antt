-- ===== src/Anime/Groups.antt =====
-- `AniDBTVDBEpisodeMapsResult` of internal/anidb/tvdb_episode_map.db.go: the maps of a series, which are
-- sorted by the ids of the anime, in groups. The lock and the kept result are left out.
use resolver_addon.Prelude.{
  ℕ, ◌+◌, Bool, false, ◌&&◌, ◌||◌, List, [], ◌∷◌, ◌++◌, Option, none, some, if◌then◌else◌, ltb,
}
use resolver_addon.Prelude.Affix.{or_else}
use resolver_addon.Prelude.Assoc.{Assoc, find, store}
use resolver_addon.Prelude.Bytes.{Bytes, bytes_eq}
use resolver_addon.Prelude.Decimal.{itoa}
use resolver_addon.Prelude.Int.{pos, ltb_ℤ}
use resolver_addon.Anime.{EpisodeMap}

pub record Group : Type 0 where
  pub anidb_id : Bytes
  pub part : ℕ
  pub tvdb_episode_maps : List EpisodeMap

abbrev has_part : EpisodeMap → Bool
has_part m = ltb_ℤ (pos 0) m.tvdb_season && ltb_ℤ (pos 0) m.anidb_season

-- The parts that each season has so far, with the new one.
abbrev pub next_parts : EpisodeMap → Assoc ℕ → Assoc ℕ
next_parts m parts =
    if has_part m
    then store parts (itoa m.tvdb_season) (or_else (find parts (itoa m.tvdb_season)) 0 + 1)
    else parts

abbrev part_of : EpisodeMap → Assoc ℕ → ℕ
part_of m parts = if has_part m then or_else (find parts (itoa m.tvdb_season)) 0 + 1 else 0

abbrev pub new_group : EpisodeMap → Assoc ℕ → Group
new_group m parts = record {
  anidb_id = m.anidb_id;
  part = part_of m parts;
  tvdb_episode_maps = m ∷ [];
}

abbrev pub with_episode_map : Group → EpisodeMap → Group
with_episode_map g m = record g { tvdb_episode_maps = g.tvdb_episode_maps ++ m ∷ [] }

-- The loop of GroupByAniDBId behind its first round: `g` is the group at `idx`.
unfoldable pub groups_from : Group → Assoc ℕ → List EpisodeMap → List Group
groups_from g parts [] = g ∷ []
groups_from g parts (m ∷ ms) =
    let same = groups_from (with_episode_map g m) parts ms in
    let other = g ∷ groups_from (new_group m parts) (next_parts m parts) ms in
    if bytes_eq g.anidb_id m.anidb_id then same else other

unfoldable pub group_by_anidb_id : List EpisodeMap → List Group
unfolding groups_from
group_by_anidb_id [] = []
group_by_anidb_id (m ∷ ms) = groups_from (new_group m []) (next_parts m []) ms

-- GetByAniDBId: the index keeps the last group of an id.
unfoldable pub last_of_id : List Group → Bytes → Option Group
last_of_id [] id = none
last_of_id (g ∷ groups) id = elim (last_of_id groups id) [
  | none ↦ if bytes_eq g.anidb_id id then some g else none
  | some later ↦ some later
]

unfoldable pub get_by_anidb_id : List EpisodeMap → Bytes → Option Group
unfolding group_by_anidb_id last_of_id
get_by_anidb_id ms id = last_of_id (group_by_anidb_id ms) id

unfoldable pub any_part : List Group → Bool
any_part [] = false
any_part (g ∷ groups) = ltb 1 g.part || any_part groups

-- HasJoinedTVSeasons
unfoldable pub has_joined_tv_seasons : List EpisodeMap → Bool
unfolding group_by_anidb_id any_part
has_joined_tv_seasons ms = any_part (group_by_anidb_id ms)
