-- ===== src/StremId/RoundTrip.antt =====
-- A normalized id of internal/torrent_stream/id.go is read back from its text.
use resolver_addon.Prelude.{
  ◌≡◌, refl, ap, ◌∙◌, ℕ, false, [], ◌∷◌, ◌++◌, none, ok, arith, append-nil,
}
use resolver_addon.Prelude.Affix.{cut_prefix, cut, cut-append, cut-Lacks}
use resolver_addon.Prelude.Bytes.{Bytes, codes, Lacks}
use resolver_addon.StremId.{
  NormalizedStremId, empty_id, before_colon, behind_colon, colon_part, to_string, IdMaps, of_anime,
  from_imdb, normalize, and_add, or_normalize, normalize_stream_id,
}

before-colon_part :
    (a b : Bytes)
    → Lacks b':' a
    → before_colon (cut (a ++ colon_part b) b':') (a ++ colon_part b) ≡ a
before-colon_part a [] h = rw (append-nil a, cut-Lacks b':' a h) refl
before-colon_part a (c ∷ b) h = rw (cut-append b':' a (c ∷ b) h) refl

behind-colon_part : (a b : Bytes) → Lacks b':' a → behind_colon (cut (a ++ colon_part b) b':') ≡ b
behind-colon_part a [] h = rw (append-nil a, cut-Lacks b':' a h) refl
behind-colon_part a (c ∷ b) h = rw (cut-append b':' a (c ∷ b) h) refl

from_imdb-series :
    (a s e : Bytes)
    → Lacks b':' a
    → Lacks b':' s
    → from_imdb (a ++ b':' ∷ (s ++ colon_part e))
      ≡ record { is_anime = false; id = a; season = s; episode = e }
from_imdb-series a s e h hs =
    rw (cut-append b':' a (s ++ colon_part e) h)
      (rw (before-colon_part s e hs, behind-colon_part s e hs) refl)

module _ {E : Type 0} (maps : IdMaps E) where
  -- The ids that have a text of their own: an episode of a series has a season, and no ':' stands in front of
  -- the last part. The season of an anime is that of the table.
  pub data IsNormalized : NormalizedStremId → Type 0 where
    movie : (id : Bytes) → Lacks b':' id → IsNormalized (record empty_id { id = codes "tt" ++ id })
    series :
        (id season episode : Bytes) (c : ℕ)
        → Lacks b':' id
        → Lacks b':' (c ∷ season)
        → IsNormalized (record {
          is_anime = false;
          id = codes "tt" ++ id;
          season = c ∷ season;
          episode = episode;
        })
    anime :
        (id season episode : Bytes) (c : ℕ)
        → Lacks b':' (c ∷ id)
        → maps.get_anidb_season_by_id (c ∷ id) ≡ ok season
        → IsNormalized (of_anime (c ∷ id) season episode)

  tt-Lacks : (id : Bytes) → Lacks b':' id → Lacks b':' (codes "tt" ++ id)
  tt-Lacks id h = (ground arith, (ground arith, h))

  normalize-to_string :
      (nsid : NormalizedStremId) → IsNormalized nsid → normalize maps (to_string nsid) ≡ ok nsid
  unfolding to_string cut_prefix
  normalize-to_string _ (movie id h) = rw (cut-Lacks b':' (codes "tt" ++ id) (tt-Lacks id h)) refl
  normalize-to_string _ (series id season episode c h hs) =
      ap ok (from_imdb-series (codes "tt" ++ id) (c ∷ season) episode (tt-Lacks id h) hs)
  normalize-to_string _ (anime id season episode c h e) =
      rw (before-colon_part (c ∷ id) episode h, behind-colon_part (c ∷ id) episode h, e) refl

  -- The text of an id is read as that id, where the cache does not know the text and takes the id, for these
  -- ids: a movie, or a series with a season that is not empty, whose id begins with "tt"; and an anime whose id is
  -- not empty and whose season is the one that the table has for its AniDB id. No ':' stands in the id,
  -- nor in the season of a series.
  pub normalize_stream_id-to_string :
      (nsid : NormalizedStremId)
      → IsNormalized nsid
      → maps.get_cached (to_string nsid) ≡ none
      → maps.add_cached (to_string nsid) nsid ≡ none
      → normalize_stream_id maps (to_string nsid) ≡ ok nsid
  unfolding normalize_stream_id
  normalize_stream_id-to_string nsid h unknown taken =
      ap (or_normalize maps (to_string nsid)) unknown
      ∙ ap (and_add maps (to_string nsid)) (normalize-to_string nsid h)
      ∙ rw taken refl
