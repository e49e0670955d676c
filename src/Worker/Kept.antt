-- ===== src/Worker/Kept.antt =====
-- An item leaves the queue only when it has been dealt with.
use mathlib.Core.Path.{subst}
use resolver_addon.Prelude.{
  ℕ, ◌≡◌, refl, sym, ◌∙◌, true, false, List, [], ◌∷◌, Option, none, some, arith, inl, inr, ◌⊎◌,
  Bool-cases, All, All-append,
}
use resolver_addon.Prelude.Assoc.{Assoc, find, store, find-remove}
use resolver_addon.Prelude.Bytes.{Bytes, bytes_eq, bytes_eq_sound}
use resolver_addon.Worker.Queue.{
  WorkerQueue, WorkerQueueItem, Items, delete, is_due, delete_done, process_entries, process,
  delete_all, delete_done_all, process_groups, by_group_key, group_of, process_group,
}

weaken : {A B C : Type 0} → A ⊎ C → A ⊎ (B ⊎ C)
weaken (inl a) = inl a
weaken (inr c) = inr (inr c)

module _ {T : Type 0} (q : WorkerQueue T) where
  find-delete :
      (item : T) (m : Items T) (k : Bytes)
      → (find (delete q item m) k ≡ find m k) ⊎ (q.get_key item ≡ k)
  unfolding delete
  find-delete item m k = elim (Bool-cases (bytes_eq (q.get_key item) k)) [
    | inl same ↦ inr (bytes_eq_sound _ k same)
    | inr other ↦ inl (find-remove m (q.get_key item) k ∙ rw other)
  ]

  module _ {S E : Type 0} (f : S → T → S × Option E) (now : Bytes → ℕ) where
    -- Some due entry with the key was dealt with.
    abbrev pub IsDealt : Bytes → List (Bytes × WorkerQueueItem T) → Type 0
    IsDealt k [] = ⊥
    IsDealt k (e ∷ es) =
        ((q.get_key e.1.v ≡ k) × (is_due q now e ≡ true) × (s : S) × ((f s e.1.v).1 ≡ none))
        ⊎ IsDealt k es

    delete_done-IsDealt :
        (e : Bytes × WorkerQueueItem T) (es : List (Bytes × WorkerQueueItem T)) (s : S)
        (o : Option E) (m m' : Items T) (k : Bytes)
        → is_due q now e ≡ true
        → (f s e.1.v).1 ≡ o
        → (find m' k ≡ find (delete_done q o e.1.v m) k) ⊎ IsDealt k es
        → (find m' k ≡ find m k) ⊎ IsDealt k (e ∷ es)
    delete_done-IsDealt e es s none m m' k due fine (inr c) = inr (inr c)
    delete_done-IsDealt e es s (some x) m m' k due fine (inr c) = inr (inr c)
    delete_done-IsDealt e es s (some x) m m' k due fine (inl h) = inl h
    delete_done-IsDealt e es s none m m' k due fine (inl h) = elim (find-delete e.1.v m k) [
      | inl same ↦ inl (h ∙ same)
      | inr key ↦ inr (inl (key, due, s, fine))
    ]

    process_entries-due :
        (e : Bytes × WorkerQueueItem T) (es : List (Bytes × WorkerQueueItem T)) (s : S)
        (m : Items T)
        → is_due q now e ≡ true
        → process_entries q now f (e ∷ es) (s, m)
          ≡ process_entries q now f es ((f s e.1.v).0, delete_done q (f s e.1.v).1 e.1.v m)
    unfolding process_entries
    process_entries-due e es s m due = ground (arith, due)

    process_entries-early :
        (e : Bytes × WorkerQueueItem T) (es : List (Bytes × WorkerQueueItem T)) (s : S)
        (m : Items T)
        → is_due q now e ≡ false
        → process_entries q now f (e ∷ es) (s, m) ≡ process_entries q now f es (s, m)
    unfolding process_entries
    process_entries-early e es s m early = ground (arith, early)

    -- What the walk leaves of a key.
    abbrev left :
        List (Bytes × WorkerQueueItem T) → S → Items T → Bytes → Option (WorkerQueueItem T)
    left es s m k = find (process_entries q now f es (s, m)).1 k

    process_entries-keeps :
        (es : List (Bytes × WorkerQueueItem T)) (s : S) (m : Items T) (k : Bytes)
        → (left es s m k ≡ find m k) ⊎ IsDealt k es
    unfolding process_entries
    process_entries-keeps [] s m k = inl refl
    process_entries-keeps (e ∷ es) s m k = elim (Bool-cases (is_due q now e)) [
      | inl due ↦
          let (s', o) = f s e.1.v in
          subst (λ r. (find r.1 k ≡ find m k) ⊎ IsDealt k (e ∷ es))
            (sym (process_entries-due e es s m due))
            (delete_done-IsDealt e es s o m _ k due refl
              (process_entries-keeps es s' (delete_done q o e.1.v m) k))
      | inr early ↦
          subst (λ r. (find r.1 k ≡ find m k) ⊎ IsDealt k (e ∷ es))
            (sym (process_entries-early e es s m early)) (weaken (process_entries-keeps es s m k))
    ]

    -- After a call the map has of each key what it had before, or a due item with that key has been
    -- passed to the function, which took it without an error in some state.
    pub process-keeps :
        (s : S) (m : Items T) (k : Bytes)
        → (find (process q now f (s, m)).1 k ≡ find m k) ⊎ IsDealt k m
    unfolding process
    process-keeps s m k = process_entries-keeps m s m k

  -- Some group has an item with the key, and was dealt with.
  module _ {S E : Type 0} (f : S → Bytes → List T → S × Option E) where
    abbrev pub Among : Bytes → List T → Type 0
    Among k [] = ⊥
    Among k (x ∷ xs) = (q.get_key x ≡ k) ⊎ Among k xs

    abbrev IsGroupDealt : Bytes → Assoc (List T) → Type 0
    IsGroupDealt k [] = ⊥
    IsGroupDealt k ((g, items) ∷ groups) =
        (Among k items × (s : S) × ((f s g items).1 ≡ none)) ⊎ IsGroupDealt k groups

    find-delete_all :
        (items : List T) (m : Items T) (k : Bytes)
        → (find (delete_all q items m) k ≡ find m k) ⊎ Among k items
    unfolding delete_all
    find-delete_all [] m k = inl refl
    find-delete_all (x ∷ xs) m k = elim (find-delete_all xs (delete q x m) k) [
      | inr among ↦ inr (inr among)
      | inl same ↦ elim (find-delete x m k) [
        | inl kept ↦ inl (same ∙ kept)
        | inr key ↦ inr (inl key)
      ]
    ]

    delete_done_all-IsGroupDealt :
        (g : Bytes) (items : List T) (groups : Assoc (List T)) (s : S) (o : Option E)
        (m m' : Items T) (k : Bytes)
        → (f s g items).1 ≡ o
        → (find m' k ≡ find (delete_done_all q o items m) k) ⊎ IsGroupDealt k groups
        → (find m' k ≡ find m k) ⊎ IsGroupDealt k ((g, items) ∷ groups)
    delete_done_all-IsGroupDealt g items groups s none m m' k fine (inr c) = inr (inr c)
    delete_done_all-IsGroupDealt g items groups s (some x) m m' k fine (inr c) = inr (inr c)
    delete_done_all-IsGroupDealt g items groups s (some x) m m' k fine (inl h) = inl h
    delete_done_all-IsGroupDealt g items groups s none m m' k fine (inl h) =
        elim (find-delete_all items m k) [
          | inl same ↦ inl (h ∙ same)
          | inr among ↦ inr (inl (among, s, fine))
        ]

    process_groups-keeps :
        (groups : Assoc (List T)) (s : S) (m : Items T) (k : Bytes)
        → (find (process_groups q f groups (s, m)).1 k ≡ find m k) ⊎ IsGroupDealt k groups
    unfolding process_groups
    process_groups-keeps [] s m k = inl refl
    process_groups-keeps ((g, items) ∷ groups) s m k =
        delete_done_all-IsGroupDealt g items groups s (f s g items).1 m _ k refl
          (process_groups-keeps groups (f s g items).0 _ k)

    -- The map has a due entry with the item.
    abbrev pub IsDueIn : (now : Bytes → ℕ) → T → List (Bytes × WorkerQueueItem T) → Type 0
    IsDueIn now x [] = ⊥
    IsDueIn now x (e ∷ es) = ((e.1.v ≡ x) × (is_due q now e ≡ true)) ⊎ IsDueIn now x es

    -- The items of the group `g` are due, and have its key.
    abbrev pub AreDue : (now : Bytes → ℕ) → Items T → Bytes → List T → Type 0
    AreDue now m g = All (λ x. (q.get_group_key x ≡ g) × IsDueIn now x m)

    abbrev AreGroups : (now : Bytes → ℕ) → Items T → Assoc (List T) → Type 0
    AreGroups now m = All (λ p. AreDue now m p.0 p.1)

    store-AreGroups :
        (now : Bytes → ℕ) (m : Items T) (groups : Assoc (List T)) (g : Bytes) (items : List T)
        → AreGroups now m groups
        → AreDue now m g items
        → AreGroups now m (store groups g items)
    unfolding store
    store-AreGroups now m [] g items h due = (due, tt)
    store-AreGroups now m (p ∷ groups) g items (h, hs) due = elim (Bool-cases (bytes_eq p.0 g)) [
      | inl at ↦ rw at (due, hs)
      | inr off ↦ rw off (h, store-AreGroups now m groups g items hs due)
    ]

    group_of-AreDue :
        (now : Bytes → ℕ) (m : Items T) (groups : Assoc (List T)) (g : Bytes)
        → AreGroups now m groups
        → AreDue now m g (group_of q (find groups g))
    unfolding find
    group_of-AreDue now m [] g h = tt
    group_of-AreDue now m (p ∷ groups) g (h, hs) = elim (Bool-cases (bytes_eq p.0 g)) [
      | inl at ↦ rw at (subst (λ k. AreDue now m k p.1) (bytes_eq_sound p.0 g at) h)
      | inr off ↦ rw off (group_of-AreDue now m groups g hs)
    ]

    by_group_key-AreGroups :
        (now : Bytes → ℕ) (m es : Items T) (groups : Assoc (List T))
        → ((x : T) → IsDueIn now x es → IsDueIn now x m)
        → AreGroups now m groups
        → AreGroups now m (by_group_key q now es groups)
    unfolding by_group_key
    by_group_key-AreGroups now m [] groups sub h = h
    by_group_key-AreGroups now m (e ∷ es) groups sub h = elim (Bool-cases (is_due q now e)) [
      | inl due ↦
          let g = q.get_group_key e.1.v in
          rw due (
            by_group_key-AreGroups now m es _ (λ x d. sub x (inr d))
              (store-AreGroups now m groups g _ h (
                All-append (λ x. (q.get_group_key x ≡ g) × IsDueIn now x m)
                  (group_of q (find groups g)) (e.1.v ∷ []) (group_of-AreDue now m groups g h)
                  ((refl, sub e.1.v (inl (refl, due))), tt))))
      | inr early ↦ rw early (by_group_key-AreGroups now m es groups (λ x d. sub x (inr d)) h)
    ]

    -- A group of due items with the key among them was taken.
    abbrev pub IsTaken : (now : Bytes → ℕ) → Items T → Bytes → Type 0
    IsTaken now m k =
        (g : Bytes) × (items : List T) × Among k items
        × AreDue now m g items
        × (s : S) × ((f s g items).1 ≡ none)

    IsGroupDealt-IsTaken :
        (now : Bytes → ℕ) (m : Items T) (groups : Assoc (List T)) (k : Bytes)
        → AreGroups now m groups
        → IsGroupDealt k groups
        → IsTaken now m k
    IsGroupDealt-IsTaken now m [] k h d = elim d [ ]
    IsGroupDealt-IsTaken now m (p ∷ groups) k (h, hs) (inl (among, s, fine)) =
        (p.0, p.1, among, h, s, fine)
    IsGroupDealt-IsTaken now m (p ∷ groups) k (h, hs) (inr d) =
        IsGroupDealt-IsTaken now m groups k hs d

    -- After a call by groups the map has of each key what it had before, or the function has taken a
    -- group without an error in some state: an item with that key is among the group, and each item of
    -- the group has the group's key and stands in an entry of the map that is due.
    pub process_group-keeps :
        (now : Bytes → ℕ) (s : S) (m : Items T) (k : Bytes)
        → (find (process_group q now f (s, m)).1 k ≡ find m k) ⊎ IsTaken now m k
    unfolding process_group
    process_group-keeps now s m k = elim (process_groups-keeps (by_group_key q now m []) s m k) [
      | inl same ↦ inl same
      | inr d ↦ inr (
          IsGroupDealt-IsTaken now m (by_group_key q now m []) k
            (by_group_key-AreGroups now m m [] (λ x e. e) tt) d)
    ]
