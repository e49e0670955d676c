-- ===== src/Trakt/MoviesFrom.antt =====
-- `syncMovieFromTraktToStremio` of internal/worker/sync_stremio_trakt.go: a movie of the Trakt history that
-- the library has not as watched is marked there. The metadata and the library are parameters.
use resolver_addon.Prelude.{
  Bool, List, [], ◌∷◌, Option, none, some, Result, ok, ◌>>=◌, if◌then◌else◌,
}
use resolver_addon.Prelude.Assoc.{Assoc, find, store}
use resolver_addon.Prelude.Bytes.{Bytes, codes, bytes_eq}
use resolver_addon.Prelude.Int.{pos}
use resolver_addon.Sync.{LibraryItem, Time, empty_state, later, by_id, cons_some}
use resolver_addon.Sync.Movies.{is_positive}
use resolver_addon.Trakt.{Meta, HistoryItem, Failure, imdb_id, create_library_item, of_call}

-- The ids of the movies that the map has no item of.
unfoldable pub missing_movies : Assoc LibraryItem → List HistoryItem → List Bytes
missing_movies m [] = []
missing_movies m (item ∷ items) =
    let rest = missing_movies m items in
    elim (find m (imdb_id item.movie)) [ none ↦ imdb_id item.movie ∷ rest | some i ↦ rest ]

-- The items of one kind are put into the map.
unfoldable pub add_of_kind : Bytes → List LibraryItem → Assoc LibraryItem → Assoc LibraryItem
add_of_kind kind [] m = m
add_of_kind kind (item ∷ items) m =
    add_of_kind kind items (if bytes_eq item.kind kind then store m item.id item else m)

abbrev pub watched_once : HistoryItem → LibraryItem → LibraryItem
watched_once item base = record base {
  state = record base.state {
    times_watched = pos 1;
    last_watched = later item.watched_at base.state.last_watched;
  };
}

module _ {E : Type 0} (fetch_meta : Bytes → Bytes → Result E Meta)
    (library_items : List Bytes → Result E (List LibraryItem)) where
  -- What the library has of the ids is put into the map; there is no call for no ids.
  abbrev pub fetch_missing :
      Bytes → List Bytes → Assoc LibraryItem → Result (Failure E) (Assoc LibraryItem)
  fetch_missing kind [] m = ok m
  fetch_missing kind (id ∷ ids) m = do
    items ← of_call (library_items (id ∷ ids))
    ok (add_of_kind kind items m)

  -- stremioItemByImdbId
  abbrev pub known_movies :
      Bool → List LibraryItem → List HistoryItem → Result (Failure E) (Assoc LibraryItem)
  known_movies is_full_sync movies history =
      let m = by_id movies [] in
      if is_full_sync then ok m else fetch_missing (codes "movie") (missing_movies m history) m

  -- The item to write, if the movie is not watched yet.
  unfoldable pub movie_item :
      Time → HistoryItem → Option LibraryItem → Result (Failure E) (Option LibraryItem)
  movie_item now item (some library_item) = ok (
      if is_positive library_item.state.times_watched
      then none
      else some (watched_once item (record library_item { m_time = now })))
  movie_item now item none = do
    meta ← of_call (fetch_meta (codes "movie") (imdb_id item.movie))
    ok (some (watched_once item (create_library_item now meta empty_state)))

  -- itemsToUpdate
  unfoldable pub movie_items :
      Time → Assoc LibraryItem → List HistoryItem → Result (Failure E) (List LibraryItem)
  unfolding movie_item
  movie_items now m [] = ok []
  movie_items now m (item ∷ items) = do
    o ← movie_item now item (find m (imdb_id item.movie))
    rest ← movie_items now m items
    ok (cons_some o rest)

  unfoldable pub movies_from_trakt :
      Time → Bool → List LibraryItem → List HistoryItem → Result (Failure E) (List LibraryItem)
  unfolding movie_items
  movies_from_trakt now is_full_sync movies history = do
    m ← known_movies is_full_sync movies history
    movie_items now m history
