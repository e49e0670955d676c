-- ===== src/Trakt/Executor.antt =====
-- `syncWatched` of internal/worker/sync_stremio_trakt.go, and the loop over the links. The accounts, the
-- tokens, the two APIs and the database are a parameter, over their state `D`.
use resolver_addon.BitField.Codec.{Codec}
use resolver_addon.Prelude.{
  ℕ, Bool, true, false, List, [], ◌∷◌, Option, none, some, Result, ok, err, ◌>>=◌, ltb,
  if◌then◌else◌,
}
use resolver_addon.Prelude.Bytes.{Bytes, codes}
use resolver_addon.Prelude.Int.{ℤ, pos}
use resolver_addon.Sync.{LibraryItem, Time}
use resolver_addon.Sync.Series.{called}
use resolver_addon.Trakt.{
  HistoryItem, Failure, sync, of_call, should_sync_to_trakt, should_sync_to_stremio, is_off,
}
use resolver_addon.Trakt.Fetched.{
  Link, Api, changed_ids, of_kind, trakt_movies, trakt_episodes, Fetched,
}
use resolver_addon.Trakt.History.{get_all_trakt_history}
use resolver_addon.Trakt.MoviesFrom.{movies_from_trakt}
use resolver_addon.Trakt.SeriesFrom.{series_from_trakt}
use resolver_addon.Trakt.MoviesTo.{MovieAdd, movies_to_trakt}
use resolver_addon.Trakt.SeriesTo.{ShowAdd, series_to_trakt}

module _ {D E M : Type 0} (codec : Codec) (api : Api D E M) (fuel : ℕ) where
  -- A state, and the error that ended the sync.
  abbrev pub Outcome : Type 0
  Outcome = D × Option (Failure E)

  abbrev pub call : D × Option E → Outcome
  call (d, none) = (d, none)
  call (d, some e) = (d, some (sync (called e)))

  abbrev pub and_then : Outcome → (D → Outcome) → Outcome
  and_then (d, none) next = next d
  and_then (d, some e) next = (d, some e)

  abbrev pub with_ok {ℓ} : {A : Type ℓ} → D → Result (Failure E) A → (A → Outcome) → Outcome
  with_ok d (ok a) next = next a
  with_ok d (err e) next = (d, some e)

  -- The id maps that were looked up are kept; a failure is logged only.
  abbrev pub keep_maps : D → List M → D
  keep_maps d [] = d
  keep_maps d (map ∷ maps) = api.set_id_maps d (map ∷ maps)

  -- There is no call for nothing to send.
  abbrev pub send_items : D → List LibraryItem → Outcome
  send_items d [] = (d, none)
  send_items d (item ∷ items) = call (api.update_library_items d (item ∷ items))

  abbrev pub send_movies : D → List MovieAdd → Outcome
  send_movies d [] = (d, none)
  send_movies d (movie ∷ movies) = call (api.add_movies d (movie ∷ movies))

  abbrev pub send_shows : D → List ShowAdd → Outcome
  send_shows d [] = (d, none)
  send_shows d (show ∷ shows) = call (api.add_shows d (show ∷ shows))

  abbrev pub movie_history : D → ℤ → Result E (List HistoryItem)
  movie_history d id =
      api.get_history d (record { kind = codes "movies"; id = id; start_at = none }) 0

  abbrev pub show_history : D → ℤ → Result (Failure E) (List HistoryItem)
  show_history d id =
      get_all_trakt_history
        (api.get_history d (record { kind = codes "shows"; id = id; start_at = none })) fuel

  abbrev pub movies_step : Fetched → D → Outcome
  movies_step f d =
      with_ok d
        (movies_to_trakt (api.id_maps d) (api.lookup d) (movie_history d) f.is_full_sync
          (of_kind (codes "movie") f.items) (trakt_movies f.history))
        (λ (adds : List MovieAdd × List M). send_movies (keep_maps d adds.1) adds.0)

  abbrev pub shows_step : Fetched → D → Outcome
  shows_step f d =
      with_ok d
        (series_to_trakt codec api.fetch_meta (api.id_maps d) (api.lookup d) (show_history d)
          f.is_full_sync (of_kind (codes "series") f.items) (trakt_episodes f.history))
        (λ (adds : List ShowAdd × List M). send_shows (keep_maps d adds.1) adds.0)

  -- Stremio to Trakt: the movies, then the series.
  unfoldable pub sync_to_trakt : Fetched → D → Outcome
  sync_to_trakt f d = and_then (movies_step f d) (shows_step f)

  abbrev pub library_movies_step : Time → Fetched → D → Outcome
  library_movies_step now f d =
      with_ok d
        (movies_from_trakt api.fetch_meta (api.library_items d) now f.is_full_sync
          (of_kind (codes "movie") f.items) (trakt_movies f.history))
        (send_items d)

  abbrev pub library_series_step : Time → Fetched → D → Outcome
  library_series_step now f d =
      with_ok d
        (series_from_trakt codec api.fetch_meta (api.library_items d) now f.is_full_sync
          (of_kind (codes "series") f.items) (trakt_episodes f.history))
        (send_items d)

  -- Trakt to Stremio: the movies, then the series.
  unfoldable pub sync_to_stremio : Time → Fetched → D → Outcome
  sync_to_stremio now f d = and_then (library_movies_step now f d) (library_series_step now f)

  abbrev pub save_state : Time → Link → D → Outcome
  save_state now link d = (api.set_sync_state d link now, none)

  abbrev pub second_half : Time → Link → Fetched → D → Outcome
  second_half now link f d =
      and_then
        (if should_sync_to_stremio link.direction then sync_to_stremio now f d else (d, none))
        (save_state now link)

  -- Both directions use what was fetched before.
  unfoldable pub sync_fetched : Time → Link → Fetched → D → Outcome
  unfolding sync_to_trakt sync_to_stremio
  sync_fetched now link f d =
      and_then (if should_sync_to_trakt link.direction then sync_to_trakt f d else (d, none))
        (second_half now link f)

  -- The items of the library that the sync looks at: all, or those that changed.
  abbrev pub items_of : D → List Bytes → Result (Failure E) (List LibraryItem)
  items_of d [] = ok []
  items_of d (id ∷ ids) = of_call (api.library_items d (id ∷ ids))

  abbrev pub fetch_items : D → Option Time → Result (Failure E) (List LibraryItem)
  fetch_items d none = of_call (api.library_items d [])
  fetch_items d (some start_at) =
      of_call (api.library_timestamps d) >>= λ (ts : List (Bytes × Time)).
      items_of d (changed_ids start_at ts)

  abbrev pub fetch_history : D → Option Time → Result (Failure E) (List HistoryItem)
  fetch_history d start_at =
      get_all_trakt_history
        (api.get_history d (record { kind = []; id = pos 0; start_at = start_at })) fuel

  -- A saved time of 0 is the zero time: a full sync.
  abbrev pub start_of : Option Time → Option Time
  start_of none = none
  start_of (some t) = if ltb 0 t then some t else none

  abbrev pub is_full : Option Time → Bool
  is_full none = true
  is_full (some t) = false

  unfoldable pub fetch_both : D → Option Time → Result (Failure E) Fetched
  unfolding changed_ids
  fetch_both d start_at = do
    items ← fetch_items d start_at
    history ← fetch_history d start_at
    ok (record { is_full_sync = is_full start_at; items = items; history = history })

  abbrev pub sync_now : Time → Link → D → Outcome
  sync_now now link d =
      with_ok d (fetch_both d (start_of link.last_synced_at))
        (λ (f : Fetched). sync_fetched now link f d)

  abbrev pub with_token : Time → Link → D → Outcome
  with_token now link d =
      and_then (call (api.valid_token d link.stremio_account_id)) (sync_now now link)

  abbrev pub with_trakt_account : Time → Link → D → Outcome
  with_trakt_account now link d =
      and_then (call (d, api.trakt_account_by_id d link.trakt_account_id)) (with_token now link)

  unfoldable pub sync_watched : Time → Link → D → Outcome
  unfolding sync_fetched fetch_both
  sync_watched now link d =
      and_then (call (d, api.stremio_account_by_id d link.stremio_account_id))
        (with_trakt_account now link)

  -- The executor: the first error ends the loop.
  unfoldable pub sync_links : Time → List Link → D → Outcome
  unfolding sync_watched
  sync_links now [] d = (d, none)
  sync_links now (link ∷ links) d =
      and_then (if is_off link.direction then (d, none) else sync_watched now link d)
        (sync_links now links)
