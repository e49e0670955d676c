-- ===== src/Trakt/SeriesFrom.antt =====
-- `syncSeriesFromTraktToStremio` of internal/worker/sync_stremio_trakt.go: the episodes of the Trakt history
-- are marked in the watched field of the series. The metadata and the library are parameters.
use resolver_addon.BitField.Codec.{Codec}
use resolver_addon.Prelude.{
  Bool, true, false, List, [], ◌∷◌, ◌++◌, Option, none, some, Result, ok, ◌>>=◌, if◌then◌else◌,
}
use resolver_addon.Prelude.Affix.{or_else}
use resolver_addon.Prelude.Assoc.{Assoc, find, store}
use resolver_addon.Prelude.Bytes.{Bytes, codes, bytes_eq}
use resolver_addon.Prelude.Decimal.{itoa}
use resolver_addon.Prelude.Int.{ℤ, pos}
use resolver_addon.Sync.{LibraryItem, LibraryItemState, Time, empty_state, later, by_id, cons_some}
use resolver_addon.Sync.Series
use resolver_addon.Trakt.{
  Meta, HistoryItem, Failure, imdb_id, create_library_item, of_call, of_sync,
}
use resolver_addon.Trakt.MoviesFrom.{fetch_missing}
use resolver_addon.Watched.{WatchedBitField, get_video, set_video, next_unwatched}
use resolver_addon.Watched.Text

-- traktItemsByImdbId
unfoldable pub by_show : List HistoryItem → Assoc (List HistoryItem) → Assoc (List HistoryItem)
by_show [] m = m
by_show (item ∷ items) m =
    let show = imdb_id item.show in
    by_show items (store m show (or_else (find m show) [] ++ item ∷ []))

-- The shows that the map has no item of.
unfoldable pub missing_shows : Assoc LibraryItem → Assoc (List HistoryItem) → List Bytes
missing_shows m [] = []
missing_shows m (e ∷ shows) =
    let rest = missing_shows m shows in elim (find m e.0) [ none ↦ e.0 ∷ rest | some i ↦ rest ]

-- fmt.Sprintf("%s:%d:%d", imdbId, season, number)
unfoldable pub video_id_of : Bytes → ℤ × ℤ → Bytes
video_id_of imdb (season, number) = imdb ++ b':' ∷ itoa season ++ b':' ∷ itoa number

-- The field, whether it needs an update, and when its new episodes were watched.
abbrev pub Marks : Type 0
Marks = WatchedBitField × Bool × Time

abbrev pub mark_episode : Bytes → HistoryItem → Option (ℤ × ℤ) → Marks → Marks
mark_episode imdb item none marks = marks
mark_episode imdb item (some e) (wbf, needs, last) =
    let id = video_id_of imdb e in
    if get_video wbf id
    then (wbf, needs, last)
    else (set_video wbf id true, true, later item.watched_at last)

-- The loop over the history of one show.
unfoldable pub mark_history : Bytes → List HistoryItem → Marks → Marks
mark_history imdb [] marks = marks
mark_history imdb (item ∷ items) marks =
    mark_history imdb items (mark_episode imdb item item.episode marks)

-- The next video to watch, from its start if it is another one.
abbrev pub continue_with : Bytes → LibraryItemState → LibraryItemState
continue_with video_id state =
    if bytes_eq video_id state.video_id
    then state
    else record state { video_id = video_id; time_offset = pos 0 }

abbrev pub set_watched : LibraryItem → Bytes → Time → Bytes → LibraryItem
set_watched base text last video_id = record base {
  state =
      continue_with video_id
        (record base.state { watched = text; last_watched = later last base.state.last_watched });
}

module _ {E : Type 0} (codec : Codec) (fetch_meta : Bytes → Bytes → Result E Meta)
    (library_items : List Bytes → Result E (List LibraryItem)) where
  abbrev pub known_series :
      Bool → List LibraryItem → Assoc (List HistoryItem) → Result (Failure E) (Assoc LibraryItem)
  known_series is_full_sync series shows =
      let m = by_id series [] in
      if is_full_sync
      then ok m
      else fetch_missing fetch_meta library_items (codes "series") (missing_shows m shows) m

  -- The library's item with a new time, or a new one.
  abbrev pub base_series : Time → Meta → Option LibraryItem → LibraryItem
  base_series now meta (some library_item) = record library_item { m_time = now }
  base_series now meta none = create_library_item now meta empty_state

  abbrev fetch_video_ids : Bytes → Result E (List Bytes)
  fetch_video_ids imdb = fetch_meta (codes "series") imdb >>= λ meta. ok meta.video_ids

  -- The watched field of the item, or a clear one.
  abbrev pub field_of : List Bytes → Option LibraryItem → Result (Failure E) WatchedBitField
  field_of ids item = of_sync (Series.target_field codec fetch_video_ids ids item)

  abbrev pub text_of : WatchedBitField → Result (Failure E) Bytes
  text_of wbf = of_sync (Series.watched codec fetch_video_ids (Text.marshal_bits codec wbf))

  -- if needsUpdate
  unfoldable pub write_series :
      Time → Meta → Option LibraryItem → Marks → Result (Failure E) (Option LibraryItem)
  write_series now meta item (wbf, false, last) = ok none
  write_series now meta item (wbf, true, last) = do
    text ← text_of wbf
    ok (some (set_watched (base_series now meta item) text last (next_unwatched wbf)))

  -- One round of the loop over the shows.
  unfoldable pub series_item :
      Time → Bytes → List HistoryItem → Option LibraryItem → Result (Failure E) (Option LibraryItem)
  unfolding mark_history write_series
  series_item now imdb items item = do
    meta ← of_call (fetch_meta (codes "series") imdb)
    wbf ← field_of meta.video_ids item
    write_series now meta item (mark_history imdb items (wbf, false, 0))

  unfoldable pub series_items :
      Time → Assoc LibraryItem → Assoc (List HistoryItem) → Result (Failure E) (List LibraryItem)
  unfolding series_item
  series_items now m [] = ok []
  series_items now m (e ∷ shows) = do
    o ← series_item now e.0 e.1 (find m e.0)
    rest ← series_items now m shows
    ok (cons_some o rest)

  unfoldable pub series_from_trakt :
      Time → Bool → List LibraryItem → List HistoryItem → Result (Failure E) (List LibraryItem)
  unfolding series_items by_show
  series_from_trakt now is_full_sync series history = do
    m ← known_series is_full_sync series (by_show history [])
    series_items now m (by_show history [])
