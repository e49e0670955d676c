-- ===== src/StremId.antt =====
-- internal/torrent_stream/id.go: the ids of movies, series and anime that the addons ask for, in one form. The
-- tables of anime ids and the cache are a parameter, the record `IdMaps`.
pub mod RoundTrip
pub mod Examples
use resolver_addon.Prelude.{
  ℕ, Bool, true, false, not, ◌&&◌, ◌||◌, List, [], ◌∷◌, ◌++◌, Option, none, some, if◌then◌else◌,
  Result, ok, err,
}
use resolver_addon.Prelude.Affix.{has_prefix, cut_prefix, cut}
use resolver_addon.Prelude.Bytes.{Bytes, codes, bytes_eq}

pub record NormalizedStremId : Type 0 where
  pub is_anime : Bool
  pub id : Bytes
  pub episode : Bytes
  pub season : Bytes

abbrev pub empty_id : NormalizedStremId
empty_id = record { is_anime = false; id = []; episode = []; season = [] }

abbrev is_blank : Bytes → Bool
is_blank [] = true
is_blank (c ∷ s) = false

-- What is in front of the first ':', and what is behind it.
abbrev pub before_colon : Option (Bytes × Bytes) → Bytes → Bytes
before_colon none s = s
before_colon (some r) s = r.0

abbrev pub behind_colon : Option (Bytes × Bytes) → Bytes
behind_colon none = []
behind_colon (some r) = r.1

abbrev pub with_anidb : Bytes → Bytes
with_anidb id = if is_blank id then [] else codes "anidb:" ++ id

abbrev pub clean_anidb : Option Bytes → Bytes
clean_anidb none = []
clean_anidb (some sid) = with_anidb (before_colon (cut sid b':') sid)

-- CleanStremId
unfoldable pub clean_strem_id : Bytes → Bytes
unfolding cut
clean_strem_id sid =
    if has_prefix sid (codes "tt")
    then before_colon (cut sid b':') sid
    else clean_anidb (cut_prefix sid (codes "anidb:"))

abbrev pub is_series : NormalizedStremId → Bool
is_series nsid = not (is_blank nsid.season) || not (is_blank nsid.episode)

-- ToClean
abbrev pub to_clean : NormalizedStremId → Bytes
to_clean nsid =
    if nsid.is_anime && not (is_blank nsid.id) then codes "anidb:" ++ nsid.id else nsid.id

abbrev pub colon_part : Bytes → Bytes
colon_part s = if is_blank s then [] else b':' ∷ s

-- String
unfoldable pub to_string : NormalizedStremId → Bytes
to_string nsid =
    let id = to_clean nsid in
    if is_blank id
    then id
    else if nsid.is_anime
    then id ++ colon_part nsid.episode
    else if not (is_blank nsid.season)
    then id ++ b':' ∷ (nsid.season ++ colon_part nsid.episode)
    else id

module _ (E : Type 0) where
  pub data StremIdError : Type 0 where
    unsupported_strem_id : StremIdError
    failed : E → StremIdError

  -- The cache, and the lookups of an AniDB id and its season. An error of the cache is `some`.
  pub record IdMaps : Type 0 where
    pub get_cached : Bytes → Option NormalizedStremId
    pub add_cached : Bytes → NormalizedStremId → Option E
    pub get_anidb_season_by_id : Bytes → Result E Bytes
    pub get_anidb_id_by_kitsu_id : Bytes → Result E (Bytes × Bytes)
    pub get_anidb_id_by_mal_id : Bytes → Result E (Bytes × Bytes)

-- "tt…", "tt…:season" or "tt…:season:episode"
abbrev pub with_season : Bytes → Option (Bytes × Bytes) → NormalizedStremId
with_season imdb_id none = record empty_id { id = imdb_id }
with_season imdb_id (some r) = record empty_id {
  id = imdb_id;
  season = before_colon (cut r.1 b':') r.1;
  episode = behind_colon (cut r.1 b':');
}

abbrev pub from_imdb : Bytes → NormalizedStremId
from_imdb sid = with_season (before_colon (cut sid b':') sid) (cut sid b':')

abbrev pub of_anime : Bytes → Bytes → Bytes → NormalizedStremId
of_anime id season episode = record { is_anime = true; id = id; season = season; episode = episode }

module _ {E : Type 0} where
  abbrev pub of_anidb : Bytes → Bytes → Result E Bytes → Result (StremIdError E) NormalizedStremId
  of_anidb id episode (err e) = err (failed e)
  of_anidb id episode (ok season) = ok (of_anime id season episode)

  abbrev pub of_other : Bytes → Result E (Bytes × Bytes) → Result (StremIdError E) NormalizedStremId
  of_other episode (err e) = err (failed e)
  of_other episode (ok r) = ok (of_anime r.0 r.1 episode)

  abbrev pub from_anidb : IdMaps E → Bytes → Result (StremIdError E) NormalizedStremId
  from_anidb maps id_episode =
      let id = before_colon (cut id_episode b':') id_episode in
      of_anidb id (behind_colon (cut id_episode b':')) (maps.get_anidb_season_by_id id)

  abbrev pub from_other :
      (Bytes → Result E (Bytes × Bytes)) → Bytes → Result (StremIdError E) NormalizedStremId
  from_other lookup id_episode =
      of_other (behind_colon (cut id_episode b':'))
        (lookup (before_colon (cut id_episode b':') id_episode))

  -- The branches behind "tt", by the prefix that is cut.
  abbrev pub by_prefix :
      IdMaps E
      → Option Bytes
      → Option Bytes
      → Option Bytes
      → Result (StremIdError E) NormalizedStremId
  by_prefix maps (some anidb) kitsu mal = from_anidb maps anidb
  by_prefix maps none (some kitsu) mal = from_other maps.get_anidb_id_by_kitsu_id kitsu
  by_prefix maps none none (some mal) = from_other maps.get_anidb_id_by_mal_id mal
  by_prefix maps none none none = err unsupported_strem_id

  abbrev pub normalize : IdMaps E → Bytes → Result (StremIdError E) NormalizedStremId
  normalize maps sid =
      if has_prefix sid (codes "tt")
      then ok (from_imdb sid)
      else by_prefix maps (cut_prefix sid (codes "anidb:")) (cut_prefix sid (codes "kitsu:"))
          (cut_prefix sid (codes "mal:"))

  abbrev pub add_to_cache : Option E → NormalizedStremId → Result (StremIdError E) NormalizedStremId
  add_to_cache none nsid = ok nsid
  add_to_cache (some e) nsid = err (failed e)

  abbrev pub and_add :
      IdMaps E
      → Bytes
      → Result (StremIdError E) NormalizedStremId
      → Result (StremIdError E) NormalizedStremId
  and_add maps sid (ok nsid) = add_to_cache (maps.add_cached sid nsid) nsid
  and_add maps sid (err e) = err e

  abbrev pub or_normalize :
      IdMaps E → Bytes → Option NormalizedStremId → Result (StremIdError E) NormalizedStremId
  or_normalize maps sid (some nsid) = ok nsid
  or_normalize maps sid none = and_add maps sid (normalize maps sid)

  -- NormalizeStreamId
  unfoldable pub normalize_stream_id : IdMaps E → Bytes → Result (StremIdError E) NormalizedStremId
  unfolding cut
  normalize_stream_id maps sid = or_normalize maps sid (maps.get_cached sid)
