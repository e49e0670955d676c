-- ===== src/Trakt/Fetched.antt =====
-- What `syncWatched` of internal/worker/sync_stremio_trakt.go fetches of the two accounts, and what it needs
-- of the rest of the program.
use resolver_addon.Prelude.{ℕ, Bool, not, ◌&&◌, List, [], ◌∷◌, Option, Result, ltb, if◌then◌else◌}
use resolver_addon.Prelude.Assoc.{Assoc}
use resolver_addon.Prelude.Bytes.{Bytes, codes, bytes_eq}
use resolver_addon.Prelude.Int.{ℤ}
use resolver_addon.Sync.{LibraryItem, Time}
use resolver_addon.Sync.Accounts.{has_tt_prefix}
use resolver_addon.Trakt.{Meta, HistoryItem, imdb_id, TraktDirection}
use resolver_addon.Trakt.MoviesTo.{MovieAdd}
use resolver_addon.Trakt.SeriesTo.{ShowAdd}

pub record Link : Type 0 where
  pub stremio_account_id : Bytes
  pub trakt_account_id : Bytes
  pub direction : TraktDirection
  pub last_synced_at : Option Time

-- trakt.GetHistoryParams without its page.
pub record GetHistoryParams : Type 0 where
  pub kind : Bytes
  pub id : ℤ
  pub start_at : Option Time

-- What a sync needs of the rest of the program. No ids ask for all items; page 0 is no page.
pub record Api (D E M : Type 0) : Type 0 where
  pub stremio_account_by_id : D → Bytes → Option E
  pub trakt_account_by_id : D → Bytes → Option E
  pub valid_token : D → Bytes → D × Option E
  pub library_timestamps : D → Result E (List (Bytes × Time))
  pub library_items : D → List Bytes → Result E (List LibraryItem)
  pub update_library_items : D → List LibraryItem → D × Option E
  pub get_history : D → GetHistoryParams → ℕ → Result E (List HistoryItem)
  pub add_movies : D → List MovieAdd → D × Option E
  pub add_shows : D → List ShowAdd → D × Option E
  pub lookup : D → Bytes → Bytes → Option (ℤ × M)
  pub id_maps : D → List Bytes → Result E (Assoc Bytes)
  pub set_id_maps : D → List M → D
  pub fetch_meta : Bytes → Bytes → Result E Meta
  pub set_sync_state : D → Link → Time → D

-- The ids of the items that changed behind the last sync.
unfoldable pub changed_ids : Time → List (Bytes × Time) → List Bytes
changed_ids start_at [] = []
changed_ids start_at (ts ∷ rest) =
    let ids = changed_ids start_at rest in
    if has_tt_prefix ts.0 && ltb start_at ts.1 then ts.0 ∷ ids else ids

-- ctx.stremioMovies, ctx.stremioSeries
unfoldable pub of_kind : Bytes → List LibraryItem → List LibraryItem
of_kind kind [] = []
of_kind kind (item ∷ items) =
    let rest = of_kind kind items in
    if has_tt_prefix item.id && bytes_eq item.kind kind then item ∷ rest else rest

-- ctx.traktMovies
unfoldable pub trakt_movies : List HistoryItem → List HistoryItem
trakt_movies [] = []
trakt_movies (item ∷ items) =
    let rest = trakt_movies items in
    if bytes_eq item.kind (codes "movie") && not (bytes_eq (imdb_id item.movie) [])
    then item ∷ rest
    else rest

-- ctx.traktEpisodes
unfoldable pub trakt_episodes : List HistoryItem → List HistoryItem
trakt_episodes [] = []
trakt_episodes (item ∷ items) =
    let rest = trakt_episodes items in
    if bytes_eq item.kind (codes "episode") && not (bytes_eq (imdb_id item.show) [])
    then item ∷ rest
    else rest

-- What was fetched of the two accounts.
pub record Fetched : Type 0 where
  pub is_full_sync : Bool
  pub items : List LibraryItem
  pub history : List HistoryItem
