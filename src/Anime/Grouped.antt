-- ===== src/Anime/Grouped.antt =====
-- The groups of `GroupByAniDBId` of internal/anidb/tvdb_episode_map.db.go.
use resolver_addon.Prelude.{
  ◌≡◌, refl, ap, sym, ◌∙◌, ℕ, false, List, [], ◌∷◌, ◌++◌, inl, inr, Bool-cases, All, append_assoc,
}
use resolver_addon.Prelude.Assoc.{Assoc}
use resolver_addon.Prelude.Bytes.{Bytes, bytes_eq, bytes_eq_sound}
use resolver_addon.Anime.{EpisodeMap}
use resolver_addon.Anime.Groups.{
  Group, groups_from, group_by_anidb_id, with_episode_map, new_group, next_parts,
}

-- The maps of the groups, in their order.
unfoldable pub all_maps : List Group → List EpisodeMap
all_maps [] = []
all_maps (g ∷ groups) = g.tvdb_episode_maps ++ all_maps groups

-- A group has a map, and its maps are of its id.
abbrev pub HasMap : List EpisodeMap → Type 0
HasMap [] = ⊥
HasMap (m ∷ ms) = Unit

abbrev pub IsGroup : Group → Type 0
IsGroup g = HasMap g.tvdb_episode_maps × All (λ m. m.anidb_id ≡ g.anidb_id) g.tvdb_episode_maps

-- Two groups that stand side by side have different ids.
abbrev pub Differ : Bytes → List Group → Type 0
Differ id [] = Unit
Differ id (g ∷ groups) = (bytes_eq id g.anidb_id ≡ false) × Differ g.anidb_id groups

abbrev pub AreApart : List Group → Type 0
AreApart [] = Unit
AreApart (g ∷ groups) = Differ g.anidb_id groups

abbrev StartsAt : Bytes → List Group → Type 0
StartsAt id [] = ⊥
StartsAt id (g ∷ groups) = (g.anidb_id ≡ id) × Differ g.anidb_id groups

apart_of : (id : Bytes) (groups : List Group) → StartsAt id groups → AreApart groups
apart_of id [] h = elim h [ ]
apart_of id (g ∷ groups) (e, d) = d

Differ-cons :
    (id j : Bytes) (groups : List Group)
    → bytes_eq id j ≡ false
    → StartsAt j groups
    → Differ id groups
Differ-cons id j [] h k = elim k [ ]
Differ-cons id j (g ∷ groups) h (e, d) = (rw e h, d)

add-HasMap : (ms : List EpisodeMap) (m : EpisodeMap) → HasMap (ms ++ m ∷ [])
add-HasMap [] m = tt
add-HasMap (n ∷ ms) m = tt

add-All :
    (P : EpisodeMap → Type 0) (ms : List EpisodeMap) (m : EpisodeMap)
    → All P ms
    → P m
    → All P (ms ++ m ∷ [])
add-All P [] m h p = (p, tt)
add-All P (n ∷ ms) m (q, h) p = (q, add-All P ms m h p)

record AreGroups (g : Group) (ms : List EpisodeMap) (groups : List Group) : Type 0 where
  maps : all_maps groups ≡ g.tvdb_episode_maps ++ ms
  good : All IsGroup groups
  starts : StartsAt g.anidb_id groups

groups_from-AreGroups :
    (g : Group) (parts : Assoc ℕ) (ms : List EpisodeMap)
    → IsGroup g
    → AreGroups g ms (groups_from g parts ms)
unfolding groups_from all_maps
groups_from-AreGroups g parts [] h = record { maps = refl; good = (h, tt); starts = (refl, tt) }
groups_from-AreGroups g parts (m ∷ ms) (some_map, of_id) =
    elim (Bool-cases (bytes_eq g.anidb_id m.anidb_id)) [
      | inl at ↦
          let rest = groups_from-AreGroups (with_episode_map g m) parts ms (
            add-HasMap g.tvdb_episode_maps m,
            add-All _ g.tvdb_episode_maps m of_id (sym (bytes_eq_sound g.anidb_id m.anidb_id at)),
          ) in
          rw at record {
            maps = rest.maps ∙ append_assoc g.tvdb_episode_maps (m ∷ []) ms;
            good = rest.good;
            starts = rest.starts;
          }
      | inr off ↦
          let rest =
            groups_from-AreGroups (new_group m parts) (next_parts m parts) ms (tt, (refl, tt)) in
          rw off record {
            maps = ap (λ l. g.tvdb_episode_maps ++ l) rest.maps;
            good = ((some_map, of_id), rest.good);
            starts = (refl, Differ-cons g.anidb_id m.anidb_id _ off rest.starts);
          }
    ]

-- GroupByAniDBId cuts the maps into runs: the maps of the groups are the maps in their order, each group has a
-- map and only maps of its id, and the ids of two groups side by side differ.
pub group_by_anidb_id-AreRuns :
    (ms : List EpisodeMap)
    → (all_maps (group_by_anidb_id ms) ≡ ms)
      × All IsGroup (group_by_anidb_id ms)
      × AreApart (group_by_anidb_id ms)
unfolding group_by_anidb_id all_maps
group_by_anidb_id-AreRuns [] = (refl, tt, tt)
group_by_anidb_id-AreRuns (m ∷ ms) =
    let all = groups_from-AreGroups (new_group m []) (next_parts m []) ms (tt, (refl, tt)) in
    (all.maps, all.good, apart_of m.anidb_id _ all.starts)
