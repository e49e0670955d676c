-- ===== src/Trakt/Pages.antt =====
-- The history of Trakt is read to its end: `getAllTraktHistory` of internal/worker/sync_stremio_trakt.go.
use resolver_addon.Prelude.{
  false, ℕ, zero, suc, ◌≤◌, ◌<◌, ◌≡◌, refl, ap, ◌∙◌, List, [], ◌++◌, append_assoc, Result, ok,
  arith, ltb, lt→ltb, length,
}
use resolver_addon.Trakt.{HistoryItem}
use resolver_addon.Trakt.History.{limit, history_from, get_all_trakt_history}

module _ {E : Type 0} (get_history : ℕ → Result E (List HistoryItem)) where
  -- From page `p` on there are `n` pages with these items: full ones, and a last one that is not full.
  pub data Pages : ℕ → ℕ → List HistoryItem → Type 0 where
    last :
        {p : ℕ} (items : List HistoryItem)
        → get_history p ≡ ok items
        → length items < limit
        → Pages p 1 items
    full :
        {p n : ℕ} {more : List HistoryItem} (items : List HistoryItem)
        → get_history p ≡ ok items
        → limit ≤ length items
        → Pages (suc p) n more
        → Pages p (suc n) (items ++ more)

  history_from-Pages :
      {p n : ℕ} {items : List HistoryItem} (fuel : ℕ) (before : List HistoryItem)
      → Pages p n items
      → n ≤ fuel
      → history_from get_history fuel p before ≡ ok (before ++ items)
  unfolding history_from
  history_from-Pages zero before (last items e short) h = absurd (omega arith)
  history_from-Pages zero before (full items e long q) h = absurd (omega arith)
  history_from-Pages (suc fuel) before (last items e short) h =
      rw e (rw (lt→ltb (length items) limit short) refl)
  history_from-Pages {p} (suc fuel) before (full {more = more} items e long q) h = rw e (
      rw (not_short (length items) long) (
        history_from-Pages fuel (before ++ items) q (omega arith)
        ∙ ap ok (append_assoc before items more)))
    where
      not_short : (k : ℕ) → limit ≤ k → ltb k limit ≡ false
      not_short k h = ground arith

  -- With as much fuel as there are pages, the whole history is read: the items of all pages, in order.
  pub get_all_trakt_history-Pages :
      {n : ℕ} {items : List HistoryItem} (fuel : ℕ)
      → Pages 1 n items
      → n ≤ fuel
      → get_all_trakt_history get_history fuel ≡ ok items
  unfolding get_all_trakt_history
  get_all_trakt_history-Pages fuel p h = history_from-Pages fuel [] p h
