-- ===== src/Trakt.antt =====
-- The history of a Trakt account beside the library of a Stremio account:
-- internal/worker/sync_stremio_trakt.go and the directions of internal/sync/stremio_trakt/db.go.
pub mod History
pub mod MoviesFrom
pub mod SeriesFrom
pub mod MoviesTo
pub mod SeriesTo
pub mod EpisodeKeys
pub mod Pages
pub mod Marked
pub mod Gained
pub mod Sent
pub mod Examples
pub mod Fetched
pub mod Executor
use resolver_addon.Prelude.{
  Bool, true, false, List, [], ◌∷◌, Option, none, some, Result, ok, err, if◌then◌else◌,
}
use resolver_addon.Prelude.Affix.{or_else}
use resolver_addon.Prelude.Bytes.{Bytes}
use resolver_addon.Prelude.Int.{ℤ}
use resolver_addon.Sync.{Time, LibraryItem, LibraryItemState}
use resolver_addon.Sync.Series.{SyncError, called}

-- What the sync reads of a stremio.Meta.
pub record Meta : Type 0 where
  pub id : Bytes
  pub kind : Bytes
  pub name : Bytes
  pub poster : Bytes
  pub poster_shape : Bytes
  pub background : Bytes
  pub logo : Bytes
  pub release_info : Bytes
  pub video_ids : List Bytes

-- What the sync reads of a trakt.HistoryItem: of the movie and the show the IMDB id, of the episode its
-- season and number.
pub record HistoryItem : Type 0 where
  pub watched_at : Time
  pub kind : Bytes
  pub movie : Option Bytes
  pub show : Option Bytes
  pub episode : Option (ℤ × ℤ)

-- item.Movie.Ids.IMDB, of an item that has a movie
abbrev pub imdb_id : Option Bytes → Bytes
imdb_id o = or_else o []

-- An error of the sync, or more pages than were read.
pub data Failure (E : Type 0) : Type 0 where
  sync : SyncError E → Failure E
  unfinished : Failure E

abbrev pub of_call {ℓ} : {E : Type 0} {A : Type ℓ} → Result E A → Result (Failure E) A
of_call (ok a) = ok a
of_call (err e) = err (sync (called e))

abbrev pub of_sync {ℓ} : {E : Type 0} {A : Type ℓ} → Result (SyncError E) A → Result (Failure E) A
of_sync (ok a) = ok a
of_sync (err e) = err (sync e)

-- createLibraryItem
abbrev pub create_library_item : Time → Meta → LibraryItemState → LibraryItem
create_library_item now meta state = record {
  id = meta.id;
  removed = false;
  temp = false;
  c_time = now;
  m_time = now;
  state = state;
  name = meta.name;
  kind = meta.kind;
  poster = meta.poster;
  poster_shape = meta.poster_shape;
  background = meta.background;
  logo = meta.logo;
  year = meta.release_info;
  behavior_hints = none;
}

pub data TraktDirection : Type 0 where
  dir_none stremio_to_trakt trakt_to_stremio both : TraktDirection

unfoldable pub should_sync_to_trakt : TraktDirection → Bool
should_sync_to_trakt stremio_to_trakt = true
should_sync_to_trakt both = true
should_sync_to_trakt _ = false

unfoldable pub should_sync_to_stremio : TraktDirection → Bool
should_sync_to_stremio trakt_to_stremio = true
should_sync_to_stremio both = true
should_sync_to_stremio _ = false

unfoldable pub is_off : TraktDirection → Bool
is_off dir_none = true
is_off _ = false
