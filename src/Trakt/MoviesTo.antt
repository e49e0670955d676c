-- ===== src/Trakt/MoviesTo.antt =====
-- `syncMovieFromStremioToTrakt` of internal/worker/sync_stremio_trakt.go: the watched movies of the library
-- that the Trakt history has not. The calls of Trakt and of the database of ids are parameters; `M` is the
-- type of the id maps.
use resolver_addon.Prelude.{
  Bool, not, ◌&&◌, List, [], ◌∷◌, ◌++◌, Option, none, some, Result, ok, ◌>>=◌, if◌then◌else◌,
}
use resolver_addon.Prelude.Affix.{or_else}
use resolver_addon.Prelude.Assoc.{Assoc, find}
use resolver_addon.Prelude.Bytes.{Bytes, codes, bytes_eq}
use resolver_addon.Prelude.Decimal.{atoi}
use resolver_addon.Prelude.Int.{ℤ, pos}
use resolver_addon.Sync.{LibraryItem, Time}
use resolver_addon.Sync.Accounts.{includes}
use resolver_addon.Sync.Movies.{is_zero, is_positive}
use resolver_addon.Trakt.{HistoryItem, Failure, of_call}

-- A movie of SyncHistoryParamsItem.
pub record MovieAdd : Type 0 where
  pub imdb : Bytes
  pub watched_at : Time

-- util.SafeParseInt
abbrev pub safe_parse_int : Bytes → ℤ → ℤ
safe_parse_int s fallback = or_else (atoi s) fallback

abbrev pub cons_id : Option Bytes → List Bytes → List Bytes
cons_id none ids = ids
cons_id (some id) ids = if bytes_eq id [] then ids else id ∷ ids

-- traktWatchedImdbIds
unfoldable pub watched_imdb_ids : List HistoryItem → List Bytes
watched_imdb_ids [] = []
watched_imdb_ids (item ∷ items) = cons_id item.movie (watched_imdb_ids items)

-- Watched in the library, and not in the history.
abbrev pub is_candidate : List Bytes → LibraryItem → Bool
is_candidate seen item = not (is_zero item.state.times_watched) && not (includes seen item.id)

abbrev pub movie_add : LibraryItem → MovieAdd
movie_add item = record { imdb = item.id; watched_at = item.state.last_watched }

unfoldable pub candidates : List Bytes → List LibraryItem → List LibraryItem
candidates seen [] = []
candidates seen (item ∷ items) =
    let rest = candidates seen items in if is_candidate seen item then item ∷ rest else rest

abbrev pub movie_adds : List LibraryItem → List MovieAdd
movie_adds [] = []
movie_adds (item ∷ items) = movie_add item ∷ movie_adds items

abbrev pub ids_of : List LibraryItem → List Bytes
ids_of [] = []
ids_of (item ∷ items) = item.id ∷ ids_of items

-- traktIdByImdbId, of the id maps of the database.
unfoldable pub trakt_ids : Assoc Bytes → Assoc ℤ
trakt_ids [] = []
trakt_ids (e ∷ maps) =
    let id = safe_parse_int e.1 (pos 0) in
    let rest = trakt_ids maps in if is_positive id then (e.0, id) ∷ rest else rest

module _ {E M : Type 0} (id_maps : List Bytes → Result E (Assoc Bytes))
    (lookup : Bytes → Bytes → Option (ℤ × M))
    (movie_history : ℤ → Result E (List HistoryItem)) where
  -- The movies to add, and the id maps that were looked up.
  abbrev pub Adds : Type 0
  Adds = List MovieAdd × List M

  -- A movie that has a history of its own is not added.
  abbrev pub check_history : LibraryItem → List M → ℤ → Result (Failure E) Adds
  check_history item maps id = of_call (movie_history id) >>= λ (history : List HistoryItem).
      ok (elim history [ [] ↦ movie_add item ∷ [] | _ ∷ _ ↦ [] ], maps)

  -- A movie that Trakt does not know is passed over.
  abbrev pub check_lookup : LibraryItem → Option (ℤ × M) → Result (Failure E) Adds
  check_lookup item none = ok ([], [])
  check_lookup item (some (id, map)) = check_history item (map ∷ []) id

  abbrev pub check_movie : LibraryItem → Option ℤ → Result (Failure E) Adds
  check_movie item (some id) = check_history item [] id
  check_movie item none = check_lookup item (lookup (codes "movie") item.id)

  unfoldable pub check_movies : Assoc ℤ → List LibraryItem → Result (Failure E) Adds
  check_movies ids [] = ok ([], [])
  check_movies ids (item ∷ items) = do
    one ← check_movie item (find ids item.id)
    rest ← check_movies ids items
    ok (one.0 ++ rest.0, one.1 ++ rest.1)

  unfoldable pub movies_to_trakt :
      Bool → List LibraryItem → List HistoryItem → Result (Failure E) Adds
  unfolding check_movies candidates watched_imdb_ids trakt_ids
  movies_to_trakt is_full_sync movies history =
      let items = candidates (watched_imdb_ids history) movies in
      if is_full_sync
      then ok (movie_adds items, [])
      else (of_call (id_maps (ids_of items)) >>= λ (maps : Assoc Bytes).
          check_movies (trakt_ids maps) items)
