-- ===== src/Trakt/SeriesTo.antt =====
-- `syncSeriesFromStremioToTrakt` of internal/worker/sync_stremio_trakt.go: the watched episodes of the
-- library that the Trakt history has not. The metadata and the calls of Trakt are parameters.
use resolver_addon.BitField.Codec.{Codec, Error}
use resolver_addon.Prelude.{
  Bool, true, false, ◌||◌, List, [], ◌∷◌, ◌++◌, Option, none, some, Result, ok, err, ◌>>=◌,
  if◌then◌else◌,
}
use resolver_addon.Prelude.Affix.{or_else}
use resolver_addon.Prelude.Assoc.{Assoc, find, store}
use resolver_addon.Prelude.Bytes.{Bytes, codes, bytes_eq, split}
use resolver_addon.Prelude.Decimal.{itoa}
use resolver_addon.Prelude.Int.{ℤ, pos, ltb_ℤ, eqb_ℤ}
use resolver_addon.Sync.{LibraryItem}
use resolver_addon.Sync.Accounts.{includes}
use resolver_addon.Trakt.{Meta, HistoryItem, Failure, imdb_id, of_call}
use resolver_addon.Trakt.MoviesTo.{safe_parse_int, trakt_ids}
use resolver_addon.Watched.{WatchedBitField, get_video}
use resolver_addon.Watched.Text

-- The episodes of each season.
abbrev pub Seasons : Type 0
Seasons = List (ℤ × List ℤ)

-- A show of SyncHistoryShow.
pub record ShowAdd : Type 0 where
  pub imdb : Bytes
  pub seasons : Seasons

-- fmt.Sprintf("%d:%d", season, number)
unfoldable pub episode_key : ℤ → ℤ → Bytes
episode_key season number = itoa season ++ b':' ∷ itoa number

abbrev pub add_seen : Bytes → Option (ℤ × ℤ) → Assoc (List Bytes) → Assoc (List Bytes)
add_seen imdb none m = m
add_seen imdb (some (season, number)) m =
    store m imdb (or_else (find m imdb) [] ++ episode_key season number ∷ [])

-- The loop over the history of one show.
unfoldable pub add_history : Bytes → List HistoryItem → Assoc (List Bytes) → Assoc (List Bytes)
add_history imdb [] m = m
add_history imdb (item ∷ items) m = add_history imdb items (add_seen imdb item.episode m)

-- traktWatchedByImdbId: a set of episodes for each show.
unfoldable pub seen_by_show : List HistoryItem → Assoc (List Bytes) → Assoc (List Bytes)
seen_by_show [] m = m
seen_by_show (item ∷ items) m =
    let show = imdb_id item.show in
    seen_by_show items (if bytes_eq show [] then m else add_seen show item.episode m)

-- episodesBySeason[season] = append(episodesBySeason[season], episode)
unfoldable pub add_episode : ℤ → ℤ → Seasons → Seasons
add_episode season episode [] = (season, episode ∷ []) ∷ []
add_episode season episode (e ∷ seasons) =
    let rest = add_episode season episode seasons in
    if eqb_ℤ e.0 season then (e.0, e.1 ++ episode ∷ []) ∷ seasons else e ∷ rest

-- The season and the episode that a video id names.
unfoldable pub parts_of : List Bytes → Option (ℤ × ℤ)
parts_of (show ∷ season ∷ episode ∷ more) =
    some (safe_parse_int season (pos 0), safe_parse_int episode (pos 0))
parts_of _ = none

abbrev pub add_parts : List Bytes → Option (ℤ × ℤ) → Seasons → Seasons
add_parts seen none seasons = seasons
add_parts seen (some (season, episode)) seasons =
    if ltb_ℤ season (pos 1) || ltb_ℤ episode (pos 1)
    then seasons
    else if includes seen (episode_key season episode)
    then seasons
    else add_episode season episode seasons

-- The loop over the videos.
unfoldable pub by_season : WatchedBitField → List Bytes → List Bytes → Seasons → Seasons
by_season wbf seen [] seasons = seasons
by_season wbf seen (id ∷ ids) seasons =
    by_season wbf seen ids
      (if get_video wbf id then add_parts seen (parts_of (split id b':')) seasons else seasons)

abbrev pub show_adds : Bytes → Seasons → List ShowAdd
show_adds imdb [] = []
show_adds imdb (e ∷ seasons) = record { imdb = imdb; seasons = e ∷ seasons } ∷ []

-- The series that have a watched field.
unfoldable pub with_field : List LibraryItem → List LibraryItem
with_field [] = []
with_field (item ∷ items) =
    let rest = with_field items in if bytes_eq item.state.watched [] then rest else item ∷ rest

unfoldable pub ids_with_field : List LibraryItem → List Bytes
ids_with_field [] = []
ids_with_field (item ∷ items) =
    let rest = ids_with_field items in
    if bytes_eq item.state.watched [] then rest else item.id ∷ rest

module _ {E M : Type 0} (codec : Codec) (fetch_meta : Bytes → Bytes → Result E Meta)
    (id_maps : List Bytes → Result E (Assoc Bytes)) (lookup : Bytes → Bytes → Option (ℤ × M))
    (show_history : ℤ → Result (Failure E) (List HistoryItem)) where
  -- What the loop over the series has so far: the shows to add, the id maps that were looked up, and the
  -- episodes of the history.
  abbrev pub Round : Type 0
  Round = List ShowAdd × List M × Assoc (List Bytes)

  -- The episodes to add, of the history that is known.
  abbrev pub add_show :
      LibraryItem → List Bytes → WatchedBitField → List M → Assoc (List Bytes) → Round
  add_show item ids wbf maps seen =
      (show_adds item.id (by_season wbf (or_else (find seen item.id) []) ids []), maps, seen)

  -- The history of the show is read too.
  abbrev pub with_history :
      LibraryItem
      → List Bytes
      → WatchedBitField
      → List M
      → Assoc (List Bytes)
      → ℤ
      → Result (Failure E) Round
  with_history item ids wbf maps seen id = show_history id >>= λ (items : List HistoryItem).
      ok (add_show item ids wbf maps (add_history item.id items seen))

  -- A show that Trakt does not know is passed over.
  abbrev pub with_lookup :
      LibraryItem
      → List Bytes
      → WatchedBitField
      → Assoc (List Bytes)
      → Option (ℤ × M)
      → Result (Failure E) Round
  with_lookup item ids wbf seen none = ok ([], [], seen)
  with_lookup item ids wbf seen (some (id, map)) = with_history item ids wbf (map ∷ []) seen id

  abbrev pub with_trakt_id :
      LibraryItem
      → List Bytes
      → WatchedBitField
      → Assoc (List Bytes)
      → Option ℤ
      → Result (Failure E) Round
  with_trakt_id item ids wbf seen (some id) = with_history item ids wbf [] seen id
  with_trakt_id item ids wbf seen none =
      with_lookup item ids wbf seen (lookup (codes "show") item.id)

  -- A field that cannot be read is passed over.
  abbrev pub with_read :
      Bool
      → Assoc ℤ
      → LibraryItem
      → List Bytes
      → Assoc (List Bytes)
      → Result Error WatchedBitField
      → Result (Failure E) Round
  with_read is_full_sync trakt item ids seen (err e) = ok ([], [], seen)
  with_read is_full_sync trakt item ids seen (ok wbf) =
      if is_full_sync
      then ok (add_show item ids wbf [] seen)
      else with_trakt_id item ids wbf seen (find trakt item.id)

  -- One round of the loop over the series with a watched field.
  unfoldable pub show_round :
      Bool → Assoc ℤ → LibraryItem → Assoc (List Bytes) → Result (Failure E) Round
  unfolding by_season
  show_round is_full_sync trakt item seen =
      of_call (fetch_meta (codes "series") item.id) >>= λ (meta : Meta).
      with_read is_full_sync trakt item meta.video_ids seen
        (Text.from_string codec item.state.watched meta.video_ids)

  unfoldable pub show_rounds :
      Bool
      → Assoc ℤ
      → List LibraryItem
      → Assoc (List Bytes)
      → Result (Failure E) (List ShowAdd × List M)
  unfolding show_round
  show_rounds is_full_sync trakt [] seen = ok ([], [])
  show_rounds is_full_sync trakt (item ∷ items) seen = do
    (adds, maps, seen') ← show_round is_full_sync trakt item seen
    rest ← show_rounds is_full_sync trakt items seen'
    ok (adds ++ rest.0, maps ++ rest.1)

  unfoldable pub series_to_trakt :
      Bool → List LibraryItem → List HistoryItem → Result (Failure E) (List ShowAdd × List M)
  unfolding show_rounds with_field ids_with_field
  series_to_trakt is_full_sync series history =
      let seen = seen_by_show history [] in
      if is_full_sync
      then show_rounds true [] (with_field series) seen
      else (of_call (id_maps (ids_with_field series)) >>= λ (maps : Assoc Bytes).
          show_rounds false (trakt_ids maps) (with_field series) seen)
