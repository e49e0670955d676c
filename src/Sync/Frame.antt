-- ===== src/Sync/Frame.antt =====
-- Which account a sync may write to.
use resolver_addon.BitField.Codec.{Codec}
use resolver_addon.Prelude.{
  arith, ◌≡◌, refl, Bool, true, false, List, [], ◌∷◌, Option, none, some, Result, ok, err,
  if◌then◌else◌,
}
use resolver_addon.Prelude.Bytes.{Bytes}
use resolver_addon.Sync.{
  LibraryItem, Time, should_sync_a_to_b, should_sync_b_to_a, SyncDirection, dir_none, a_to_b,
  b_to_a, both,
}
use resolver_addon.Sync.Accounts.{
  Account, account, Link, Api, Step, call, and_then, send, send_series, sync_to, sync_accounts,
  with_items, sync_fetched, sync_watched, series_step, save_state, sync_b_to_a, with_a, token_a,
  token_b, known_a, known_b,
}
use resolver_addon.Sync.Movies.{sync_movies}
use resolver_addon.Sync.Series.{SyncError, sync_series}

abbrev pub LeadsToB : SyncDirection → Type 0
LeadsToB dir_none = ⊥
LeadsToB a_to_b = Unit
LeadsToB b_to_a = ⊥
LeadsToB both = Unit

abbrev pub LeadsToA : SyncDirection → Type 0
LeadsToA dir_none = ⊥
LeadsToA a_to_b = ⊥
LeadsToA b_to_a = Unit
LeadsToA both = Unit

-- The accounts that the code writes to are those that the direction leads to.
should_sync-LeadsToB : (d : SyncDirection) → should_sync_a_to_b d ≡ true → LeadsToB d
unfolding should_sync_a_to_b
should_sync-LeadsToB dir_none e = ground arith
should_sync-LeadsToB a_to_b e = tt
should_sync-LeadsToB b_to_a e = ground arith
should_sync-LeadsToB both e = tt

should_sync-LeadsToA : (d : SyncDirection) → should_sync_b_to_a d ≡ true → LeadsToA d
unfolding should_sync_b_to_a
should_sync-LeadsToA dir_none e = ground arith
should_sync-LeadsToA a_to_b e = ground arith
should_sync-LeadsToA b_to_a e = tt
should_sync-LeadsToA both e = tt

module _ {D E : Type 0} (codec : Codec) (api : Api D E) (P : D → Type 0) where
  and_then-keeps :
      (s : Step codec api) (next : D → Step codec api)
      → P s.0
      → ((d : D) → P d → P (next d).0)
      → P (and_then codec api s next).0
  and_then-keeps (d, none) next p h = h d p
  and_then-keeps (d, some e) next p h = p

  call-keeps : (r : D × Option E) → P r.0 → P (call codec api r).0
  call-keeps (d, none) p = p
  call-keeps (d, some e) p = p

  -- A write to the account keeps `P`.
  abbrev pub KeptBy : Bytes → Type 0
  KeptBy to = (d : D) (items : List LibraryItem) → P d → P (api.update_items d to items).0

  send-keeps :
      (to : Bytes) (items : List LibraryItem) (d : D)
      → KeptBy to
      → P d
      → P (send codec api d to items).0
  unfolding send
  send-keeps to [] d k p = p
  send-keeps to (item ∷ items) d k p =
      call-keeps (api.update_items d to (item ∷ items)) (k d (item ∷ items) p)

  send_series-keeps :
      (to : Bytes) (r : Result (SyncError E) (List LibraryItem)) (d : D)
      → KeptBy to
      → P d
      → P (send_series codec api d to r).0
  send_series-keeps to (ok items) d k p = send-keeps to items d k p
  send_series-keeps to (err e) d k p = p

  sync_to-keeps :
      (now : Time) (to : Bytes) (source target : Account) (d : D)
      → KeptBy to
      → P d
      → P (sync_to codec api now to source target d).0
  unfolding sync_to
  sync_to-keeps now to source target d k p =
      let movies = sync_movies now source.movies target.movies in
      let series = sync_series codec api.fetch_video_ids now source.series target.series in
      and_then-keeps (send codec api d to movies) (series_step codec api now to source target)
        (send-keeps to movies d k p) (λ d p. send_series-keeps to series d k p)

  direction-keeps :
      (b : Bool) (d : D) (s : Step codec api)
      → P d
      → (b ≡ true → P s.0)
      → P (if b then s else (d, none)).0
  direction-keeps true d s p h = h refl
  direction-keeps false d s p h = p

  -- The accounts that the direction leads to may be written to.
  abbrev pub TargetsKeep : Link → Type 0
  TargetsKeep link =
      (LeadsToB link.direction → KeptBy link.account_b_id)
      × (LeadsToA link.direction → KeptBy link.account_a_id)

  -- Saving the time of the sync keeps `P`.
  abbrev pub StateKeeps : Time → Link → Type 0
  StateKeeps now link = (d : D) → P d → P (api.set_sync_state d link now).0

  sync_b_to_a-keeps :
      (now : Time) (link : Link) (a b : Account) (d : D)
      → TargetsKeep link
      → StateKeeps now link
      → P d
      → P (sync_b_to_a codec api now link a b d).0
  unfolding sync_b_to_a
  sync_b_to_a-keeps now link a b d t k p =
      let run = sync_to codec api now link.account_a_id b a d in
      and_then-keeps (if should_sync_b_to_a link.direction then run else (d, none))
        (save_state codec api now link)
        (direction-keeps (should_sync_b_to_a link.direction) d run p (λ e.
          sync_to-keeps now link.account_a_id b a d (t.1 (should_sync-LeadsToA link.direction e))
            p))
        (λ d p. call-keeps (api.set_sync_state d link now) (k d p))

  sync_accounts-keeps :
      (now : Time) (link : Link) (a b : Account) (d : D)
      → TargetsKeep link
      → StateKeeps now link
      → P d
      → P (sync_accounts codec api now link a b d).0
  unfolding sync_accounts
  sync_accounts-keeps now link a b d t k p =
      let run = sync_to codec api now link.account_b_id a b d in
      and_then-keeps (if should_sync_a_to_b link.direction then run else (d, none))
        (sync_b_to_a codec api now link a b)
        (direction-keeps (should_sync_a_to_b link.direction) d run p (λ e.
          sync_to-keeps now link.account_b_id a b d (t.0 (should_sync-LeadsToB link.direction e))
            p))
        (λ d p. sync_b_to_a-keeps now link a b d t k p)

  with_items-keeps :
      (r : Result E (List LibraryItem)) (d : D) (next : List LibraryItem → Step codec api)
      → P d
      → ((a : List LibraryItem) → P (next a).0)
      → P (with_items codec api r d next).0
  with_items-keeps (ok a) d next p h = h a
  with_items-keeps (err e) d next p h = p

  sync_fetched-keeps :
      (now : Time) (link : Link) (d : D)
      → TargetsKeep link
      → StateKeeps now link
      → P d
      → P (sync_fetched codec api now link d).0
  unfolding sync_fetched
  sync_fetched-keeps now link d t k p =
      with_items-keeps (api.library_items d link.account_a_id link.ids) d
        (with_a codec api now link d) p
        (λ a.
          with_items-keeps (api.library_items d link.account_b_id link.ids) d
            (λ b. sync_accounts codec api now link (account link.ids a) (account link.ids b) d) p
            (λ b. sync_accounts-keeps now link (account link.ids a) (account link.ids b) d t k p))

  -- A new token of an account keeps `P`.
  abbrev pub TokensKeep : Type 0
  TokensKeep = (d : D) (id : Bytes) → P d → P (api.valid_token d id).0

  known_a-keeps :
      (now : Time) (link : Link) (d : D)
      → TargetsKeep link
      → StateKeeps now link
      → TokensKeep
      → P d
      → P (known_a codec api now link d).0
  known_a-keeps now link d t k v p =
      let token = λ (id : Bytes) (d : D). call codec api (api.valid_token d id) in
      let known = λ (id : Bytes) (d : D). call codec api (d, api.account_by_id d id) in
      and_then-keeps (known link.account_a_id d) (known_b codec api now link) (call-keeps _ p)
        (λ d p.
          and_then-keeps (known link.account_b_id d) (token_a codec api now link) (call-keeps _ p)
            (λ d p.
              and_then-keeps (token link.account_a_id d) (token_b codec api now link)
                (call-keeps _ (v d _ p))
                (λ d p.
                  and_then-keeps (token link.account_b_id d) (sync_fetched codec api now link)
                    (call-keeps _ (v d _ p)) (λ d p. sync_fetched-keeps now link d t k p))))

  -- A sync changes an account only if the link's direction leads to it: what neither a write to
  -- such an account, nor a new token, nor the saved time of the sync changes, it leaves as it is.
  pub sync_watched-keeps :
      (now : Time) (link : Link) (d : D)
      → TargetsKeep link
      → StateKeeps now link
      → TokensKeep
      → P d
      → P (sync_watched codec api now link d).0
  unfolding sync_watched
  sync_watched-keeps now link d t k v p = by_ids link.ids
    where
      by_ids :
          (ids : List Bytes)
          → P
              (elim ids as (λ _. Step codec api) [
                | [] ↦ (d, none)
                | _ ∷ _ ↦ known_a codec api now link d
              ]).0
      by_ids [] = p
      by_ids (id ∷ ids) = known_a-keeps now link d t k v p
