-- ===== src/Sync/Accounts.antt =====
-- `syncWatched` between two accounts, and the loop over the links. What the two accounts hold is a
-- parameter, as are the tokens, the fetch of the episodes and the writes; the database keeps the
-- time of the last sync.
use resolver_addon.BitField.Codec.{Codec}
use resolver_addon.Prelude.{
  Bool, false, not, ◌&&◌, ◌||◌, List, [], ◌∷◌, Option, none, some, Result, ok, err, if◌then◌else◌,
}
use resolver_addon.Prelude.Bytes.{Bytes, codes, bytes_eq}
use resolver_addon.Sync.{
  LibraryItem, Time, SyncDirection, should_sync_a_to_b, should_sync_b_to_a, is_disabled,
}
use resolver_addon.Sync.Movies.{sync_movies}
use resolver_addon.Sync.Series.{SyncError, sync_series}

-- strings.HasPrefix(id, "tt")
abbrev pub has_tt_prefix : Bytes → Bool
has_tt_prefix (a ∷ b ∷ id) = bytes_eq (a ∷ b ∷ []) (codes "tt")
has_tt_prefix _ = false

-- util.Set.Has
unfoldable pub includes : List Bytes → Bytes → Bool
includes [] id = false
includes (k ∷ ids) id = bytes_eq k id || includes ids id

abbrev pub is_included : List Bytes → LibraryItem → Bool
is_included ids item = has_tt_prefix item.id && not item.removed && includes ids item.id

-- The items of one kind that the sync looks at.
unfoldable pub of_kind : Bytes → List Bytes → List LibraryItem → List LibraryItem
of_kind kind ids [] = []
of_kind kind ids (item ∷ items) =
    let rest = of_kind kind ids items in
    if is_included ids item && bytes_eq item.kind kind then item ∷ rest else rest

pub record Account : Type 0 where
  pub movies : List LibraryItem
  pub series : List LibraryItem

abbrev pub account : List Bytes → List LibraryItem → Account
account ids items = record {
  movies = of_kind (codes "movie") ids items;
  series = of_kind (codes "series") ids items;
}

pub record Link : Type 0 where
  pub account_a_id : Bytes
  pub account_b_id : Bytes
  pub direction : SyncDirection
  pub ids : List Bytes
  pub last_synced_at : Option Time

-- What a sync needs of the rest of the program, over the state `D` of the accounts.
pub record Api (D E : Type 0) : Type 0 where
  pub fetch_video_ids : Bytes → Result E (List Bytes)
  pub library_items : D → Bytes → List Bytes → Result E (List LibraryItem)
  pub update_items : D → Bytes → List LibraryItem → D × Option E
  pub set_sync_state : D → Link → Time → D × Option E
  pub account_by_id : D → Bytes → Option E
  pub valid_token : D → Bytes → D × Option E

module _ {D E : Type 0} (codec : Codec) (api : Api D E) where
  abbrev pub Step : Type 0
  Step = D × Option (SyncError E)

  abbrev pub call : D × Option E → Step
  call (d, none) = (d, none)
  call (d, some e) = (d, some (SyncError.called e))

  -- The next step runs if the one before it had no error.
  abbrev pub and_then : Step → (D → Step) → Step
  and_then (d, none) next = next d
  and_then (d, some e) next = (d, some e)

  -- There is no call for no items.
  unfoldable pub send : D → Bytes → List LibraryItem → Step
  send d to [] = (d, none)
  send d to (item ∷ items) = call (api.update_items d to (item ∷ items))

  abbrev pub send_series : D → Bytes → Result (SyncError E) (List LibraryItem) → Step
  send_series d to (ok items) = send d to items
  send_series d to (err e) = (d, some e)

  abbrev pub series_step : Time → Bytes → (source target : Account) → D → Step
  series_step now to source target d =
      send_series d to (sync_series codec api.fetch_video_ids now source.series target.series)

  -- One direction: the movies, then the series.
  unfoldable pub sync_to : Time → Bytes → (source target : Account) → D → Step
  unfolding send
  sync_to now to source target d =
      and_then (send d to (sync_movies now source.movies target.movies))
        (series_step now to source target)

  abbrev pub save_state : Time → Link → D → Step
  save_state now link d = call (api.set_sync_state d link now)

  unfoldable pub sync_b_to_a : Time → Link → (a b : Account) → D → Step
  unfolding sync_to
  sync_b_to_a now link a b d =
      and_then
        (if should_sync_b_to_a link.direction
          then sync_to now link.account_a_id b a d
          else (d, none))
        (save_state now link)

  -- Both directions use the items that were fetched before.
  unfoldable pub sync_accounts : Time → Link → (a b : Account) → D → Step
  unfolding sync_b_to_a
  sync_accounts now link a b d =
      and_then
        (if should_sync_a_to_b link.direction
          then sync_to now link.account_b_id a b d
          else (d, none))
        (sync_b_to_a now link a b)

  abbrev pub with_items : Result E (List LibraryItem) → D → (List LibraryItem → Step) → Step
  with_items (ok a) d next = next a
  with_items (err e) d next = (d, some (SyncError.called e))

  abbrev pub with_a : Time → Link → D → List LibraryItem → Step
  with_a now link d a =
      with_items (api.library_items d link.account_b_id link.ids) d
        (λ b. sync_accounts now link (account link.ids a) (account link.ids b) d)

  unfoldable pub sync_fetched : Time → Link → D → Step
  unfolding sync_accounts
  sync_fetched now link d =
      with_items (api.library_items d link.account_a_id link.ids) d (with_a now link d)

  abbrev pub token_b : Time → Link → D → Step
  token_b now link d = and_then (call (api.valid_token d link.account_b_id)) (sync_fetched now link)

  abbrev pub token_a : Time → Link → D → Step
  token_a now link d = and_then (call (api.valid_token d link.account_a_id)) (token_b now link)

  abbrev pub known_b : Time → Link → D → Step
  known_b now link d = and_then (call (d, api.account_by_id d link.account_b_id)) (token_a now link)

  abbrev pub known_a : Time → Link → D → Step
  known_a now link d = and_then (call (d, api.account_by_id d link.account_a_id)) (known_b now link)

  -- Without ids there is nothing to sync.
  unfoldable pub sync_watched : Time → Link → D → Step
  unfolding sync_fetched
  sync_watched now link d = elim link.ids [ [] ↦ (d, none) | _ ∷ _ ↦ known_a now link d ]

  -- The executor: an error of one link is logged, and the next link is tried.
  unfoldable pub sync_links : Time → List Link → D → D
  unfolding sync_watched
  sync_links now [] d = d
  sync_links now (link ∷ links) d =
      sync_links now links (if is_disabled link.direction then d else (sync_watched now link d).0)
