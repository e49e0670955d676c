-- ===== src/Worker/Queue.antt =====
-- internal/worker/worker_queue/queue.go: items wait in a map until their debounce time has passed.
-- The map is walked in one order; `now k` is the time when the walk comes to the key `k`.
use resolver_addon.Prelude.{
  ℕ, ◌+◌, Bool, true, false, List, [], ◌∷◌, ◌++◌, Option, none, some, ltb, if◌then◌else◌,
}
use resolver_addon.Prelude.Assoc.{Assoc, find, store, remove}
use resolver_addon.Prelude.Bytes.{Bytes}

pub record WorkerQueueItem (T : Type 0) : Type 0 where
  pub v : T
  pub t : ℕ

pub record WorkerQueue (T : Type 0) : Type 0 where
  pub get_key : T → Bytes
  pub get_group_key : T → Bytes
  pub transform : T → T
  pub debounce_time : ℕ
  pub disabled : Bool

abbrev pub Items : Type 0 → Type 0
Items T = Assoc (WorkerQueueItem T)

module _ {T : Type 0} (q : WorkerQueue T) where
  unfoldable pub queue : ℕ → T → Items T → Items T
  queue now item m =
      let item = q.transform item in
      if q.disabled
      then m
      else store m (q.get_key item) (record { v = item; t = now + q.debounce_time })

  unfoldable pub delete : T → Items T → Items T
  delete item m = remove m (q.get_key item)

  unfoldable pub is_empty : Items T → Bool
  is_empty [] = true
  is_empty (_ ∷ _) = false

  unfoldable pub delete_all : List T → Items T → Items T
  unfolding delete
  delete_all [] m = m
  delete_all (item ∷ items) m = delete_all items (delete item m)

  -- An item that the function has failed on stays for the next call.
  abbrev pub delete_done : {E : Type 0} → Option E → T → Items T → Items T
  delete_done none item m = delete item m
  delete_done (some e) item m = m

  abbrev pub delete_done_all : {E : Type 0} → Option E → List T → Items T → Items T
  delete_done_all none items m = delete_all items m
  delete_done_all (some e) items m = m

  unfoldable pub process_groups :
      {S E : Type 0}
      → (S → Bytes → List T → S × Option E)
      → Assoc (List T)
      → S × Items T
      → S × Items T
  unfolding delete_all
  process_groups f [] (s, m) = (s, m)
  process_groups f ((g, items) ∷ groups) (s, m) =
      let (s', e) = f s g items in process_groups f groups (s', delete_done_all e items m)

  abbrev pub group_of : Option (List T) → List T
  group_of none = []
  group_of (some items) = items

  module _ (now : Bytes → ℕ) where
    -- val.t.Before(time.Now())
    abbrev pub is_due : Bytes × WorkerQueueItem T → Bool
    is_due (k, item) = ltb item.t (now k)

    -- The walk of Process over the entries that are left.
    unfoldable pub process_entries :
        {S E : Type 0}
        → (S → T → S × Option E)
        → List (Bytes × WorkerQueueItem T)
        → S × Items T
        → S × Items T
    unfolding delete
    process_entries f [] (s, m) = (s, m)
    process_entries f ((k, item) ∷ es) (s, m) =
        let (s', e) = f s item.v in
        process_entries f es (if is_due (k, item) then (s', delete_done e item.v m) else (s, m))

    unfoldable pub process : {S E : Type 0} → (S → T → S × Option E) → S × Items T → S × Items T
    unfolding process_entries
    process f (s, m) = process_entries f m (s, m)

    -- byGroupKey
    unfoldable pub by_group_key : List (Bytes × WorkerQueueItem T) → Assoc (List T) → Assoc (List T)
    by_group_key [] groups = groups
    by_group_key ((k, item) ∷ es) groups =
        let g = q.get_group_key item.v in
        by_group_key es (
          if is_due (k, item)
          then store groups g (group_of (find groups g) ++ item.v ∷ [])
          else groups)

    unfoldable pub process_group :
        {S E : Type 0} → (S → Bytes → List T → S × Option E) → S × Items T → S × Items T
    unfolding by_group_key process_groups
    process_group f (s, m) = process_groups f (by_group_key m []) (s, m)
