-- ===== src/Trakt/History.antt =====
-- `getAllTraktHistory` of internal/worker/sync_stremio_trakt.go: the pages of a history until one that is
-- not full. The Trakt API is the parameter `get_history`, of a page. The loop has no bound in the source:
-- `fuel` is the number of pages that are read.
use resolver_addon.Prelude.{
  ℕ, zero, suc, List, [], ◌++◌, Result, ok, err, ◌>>=◌, ltb, if◌then◌else◌, length,
}
use resolver_addon.Trakt.{HistoryItem, Failure, unfinished, of_call}

abbrev pub limit : ℕ
limit = 100

module _ {E : Type 0} (get_history : ℕ → Result E (List HistoryItem)) where
  unfoldable pub history_from :
      (fuel page : ℕ) → List HistoryItem → Result (Failure E) (List HistoryItem)
  history_from zero page all_items = err unfinished
  history_from (suc fuel) page all_items = do
    items ← of_call (get_history page)
    let rest = history_from fuel (suc page) (all_items ++ items) in
        if ltb (length items) limit then ok (all_items ++ items) else rest

  unfoldable pub get_all_trakt_history : ℕ → Result (Failure E) (List HistoryItem)
  unfolding history_from
  get_all_trakt_history fuel = history_from fuel 1 []
