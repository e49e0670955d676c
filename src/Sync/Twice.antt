-- ===== src/Sync/Twice.antt =====
-- What is sent, and that a second sync of the movies sends nothing.
use mathlib.Core.Path.{subst}
use resolver_addon.Prelude.{
  ◌≡◌, refl, ap, ◌∙◌, sym, true, false, List, [], ◌∷◌, ◌++◌, none, some, arith, Bool-cases,
  Option-cases, inl, inr, All, ◌⊎◌,
}
use resolver_addon.Prelude.Assoc.{Assoc, find, store, find-store}
use resolver_addon.Prelude.Bytes.{Bytes, bytes_eq_refl, bytes_eq_sound}
use resolver_addon.Sync.{LibraryItem, Time, base_item, by_id}
use resolver_addon.Sync.Movies.{
  is_zero, is_positive, has_watched, mark_watched, movie_update, movie_updates, sync_movies,
}

-- An entry stands under its own id.
abbrev pub IsKeyed : Assoc LibraryItem → Type 0
IsKeyed m = (k : Bytes) (t : LibraryItem) → find m k ≡ some t → t.id ≡ k

nil-IsKeyed : IsKeyed []
unfolding find
nil-IsKeyed k t e = cc

store-IsKeyed :
    (m : Assoc LibraryItem) (item : LibraryItem) → IsKeyed m → IsKeyed (store m item.id item)
store-IsKeyed m item h k t e =
    ground (arith, find-store m item.id k item, bytes_eq_sound item.id k, h k t)

pub by_id-IsKeyed :
    (items : List LibraryItem) (m : Assoc LibraryItem) → IsKeyed m → IsKeyed (by_id items m)
unfolding by_id
by_id-IsKeyed [] m h = h
by_id-IsKeyed (item ∷ items) m h =
    by_id-IsKeyed items (store m item.id item) (store-IsKeyed m item h)

pub by_id-append :
    (xs ys : List LibraryItem) (m : Assoc LibraryItem) → by_id (xs ++ ys) m ≡ by_id ys (by_id xs m)
unfolding by_id
by_id-append [] ys m = refl
by_id-append (x ∷ xs) ys m = by_id-append xs ys (store m x.id x)

-- The item is one that the sync may send over this library.
abbrev pub IsNews : Assoc LibraryItem → LibraryItem → Type 0
IsNews m item =
    (is_positive item.state.times_watched ≡ true) × (has_watched (find m item.id) ≡ false)

base_item-id :
    (now : Time) (m : Assoc LibraryItem) (source : LibraryItem)
    → IsKeyed m
    → (base_item now source (find m source.id)).id ≡ source.id
base_item-id now m source h = elim (Option-cases (find m source.id)) [
  | inl gone ↦ rw gone
  | inr (t, found) ↦ rw found (h source.id t found)
]

sent : Time → Assoc LibraryItem → LibraryItem → LibraryItem
sent now m source = mark_watched source (base_item now source (find m source.id))

sent-IsNews :
    (now : Time) (m : Assoc LibraryItem) (source : LibraryItem)
    → IsKeyed m
    → has_watched (find m source.id) ≡ false
    → IsNews m (sent now m source)
unfolding sent
sent-IsNews now m source h e =
    (ground arith, ap (λ k. has_watched (find m k)) (base_item-id now m source h) ∙ e)

sent-id :
    (now : Time) (m : Assoc LibraryItem) (source : LibraryItem)
    → IsKeyed m
    → (sent now m source).id ≡ source.id
unfolding sent
sent-id now m source h = base_item-id now m source h

-- Nothing is sent for a movie that is not watched, or that the target has watched.
abbrev IsDone : Assoc LibraryItem → LibraryItem → Type 0
IsDone m source =
    (is_zero source.state.times_watched ≡ true) ⊎ (has_watched (find m source.id) ≡ true)

movie_update-IsDone :
    (now : Time) (m : Assoc LibraryItem) (source : LibraryItem)
    → IsDone m source
    → movie_update now m source ≡ none
unfolding movie_update
movie_update-IsDone now m source (inl z) = rw z
movie_update-IsDone now m source (inr w) = rw w (ground arith)

movie_update-cases :
    (now : Time) (m : Assoc LibraryItem) (source : LibraryItem)
    → ((movie_update now m source ≡ none) × IsDone m source)
      ⊎ ((movie_update now m source ≡ some (sent now m source))
          × (has_watched (find m source.id) ≡ false))
unfolding movie_update sent
movie_update-cases now m source = elim (Bool-cases (is_zero source.state.times_watched)) [
  | inl z ↦ inl (rw z, inl z)
  | inr z ↦ elim (Bool-cases (has_watched (find m source.id))) [
    | inl w ↦ inl (rw (z, w), inr w)
    | inr w ↦ inr (rw (z, w), w)
  ]
]

movie_updates-IsNews :
    (now : Time) (m : Assoc LibraryItem) (sources : List LibraryItem)
    → IsKeyed m
    → All (IsNews m) (movie_updates now m sources)
unfolding movie_updates
movie_updates-IsNews now m [] h = tt
movie_updates-IsNews now m (s ∷ sources) h = elim (movie_update-cases now m s) [
  | inl (e, _) ↦ rw e (movie_updates-IsNews now m sources h)
  | inr (e, w) ↦ rw e (sent-IsNews now m s h w, movie_updates-IsNews now m sources h)
]

-- Watched items stay watched, whatever news is written.
by_id-has_watched :
    (p m : Assoc LibraryItem) (items : List LibraryItem) (k : Bytes)
    → All (IsNews p) items
    → has_watched (find m k) ≡ true
    → has_watched (find (by_id items m) k) ≡ true
unfolding by_id
by_id-has_watched p m [] k a h = h
by_id-has_watched p m (item ∷ items) k a h =
    by_id-has_watched p (store m item.id item) items k a.1
      (ground (arith, find-store m item.id k item))

positive :
    (now : Time) (p : Assoc LibraryItem) (source : LibraryItem)
    → is_positive (sent now p source).state.times_watched ≡ true
unfolding sent
positive now p source = ground arith

written-has_watched :
    (now : Time) (p m : Assoc LibraryItem) (source : LibraryItem)
    → IsKeyed p
    → has_watched (find (store m (sent now p source).id (sent now p source)) source.id) ≡ true
written-has_watched now p m source h =
    let item = sent now p source in
    ap has_watched (find-store m item.id source.id item)
    ∙ rw (sent-id now p source h, bytes_eq_refl source.id) (positive now p source)

movie_updates-IsDone :
    (now : Time) (m : Assoc LibraryItem) (sources : List LibraryItem)
    → All (IsDone m) sources
    → movie_updates now m sources ≡ []
unfolding movie_updates
movie_updates-IsDone now m [] d = refl
movie_updates-IsDone now m (s ∷ sources) (d, ds) =
    rw (movie_update-IsDone now m s d) (movie_updates-IsDone now m sources ds)

-- The movies that are watched in `p` are watched in `m`.
abbrev Keeps : Assoc LibraryItem → Assoc LibraryItem → Type 0
Keeps p m = (k : Bytes) → has_watched (find p k) ≡ true → has_watched (find m k) ≡ true

store-Keeps :
    (p m : Assoc LibraryItem) (item : LibraryItem)
    → is_positive item.state.times_watched ≡ true
    → Keeps p m
    → Keeps p (store m item.id item)
store-Keeps p m item w h k e = ground (arith, find-store m item.id k item, h k e)

movie_updates-none :
    (now : Time) (m : Assoc LibraryItem) (s : LibraryItem) (sources : List LibraryItem)
    → movie_update now m s ≡ none
    → movie_updates now m (s ∷ sources) ≡ movie_updates now m sources
unfolding movie_updates
movie_updates-none now m s sources e = rw e

movie_updates-some :
    (now : Time) (m : Assoc LibraryItem) (s item : LibraryItem) (sources : List LibraryItem)
    → movie_update now m s ≡ some item
    → movie_updates now m (s ∷ sources) ≡ item ∷ movie_updates now m sources
unfolding movie_updates
movie_updates-some now m s item sources e = rw e

-- After the updates of a run over `sources`, nothing is left to do for any of them.
written-IsDone :
    (now : Time) (p m : Assoc LibraryItem) (sources : List LibraryItem)
    → IsKeyed p
    → Keeps p m
    → All (IsDone (by_id (movie_updates now p sources) m)) sources
unfolding by_id
written-IsDone now p m [] h k = tt
written-IsDone now p m (s ∷ sources) h k = elim (movie_update-cases now p s) [
  | inl (e, d) ↦ over (movie_updates-none now p s sources e) (
    elim d [
      | inl z ↦ inl z
      | inr w ↦ inr (by_id-has_watched p m _ s.id (movie_updates-IsNews now p sources h) (k s.id w))
    ],
    written-IsDone now p m sources h k,
  )
  | inr (e, w) ↦
      let m' = store m (sent now p s).id (sent now p s) in
      over (movie_updates-some now p s _ sources e) (
        inr (
            by_id-has_watched p m' _ s.id (movie_updates-IsNews now p sources h)
              (written-has_watched now p m s h)),
        written-IsDone now p m' sources h (store-Keeps p m (sent now p s) (positive now p s) k),
      )
]
  where
    over :
        {us : List LibraryItem}
        → movie_updates now p (s ∷ sources) ≡ us
        → All (IsDone (by_id us m)) (s ∷ sources)
        → All (IsDone (by_id (movie_updates now p (s ∷ sources)) m)) (s ∷ sources)
    over e = subst (λ us. All (IsDone (by_id us m)) (s ∷ sources)) (sym e)

-- A second sync of the movies sends nothing, when the items of the first one have been written
-- over the target's.
pub sync_movies-sync_movies :
    (now now' : Time) (sources targets : List LibraryItem)
    → sync_movies now' sources (targets ++ sync_movies now sources targets) ≡ []
unfolding sync_movies
sync_movies-sync_movies now now' sources targets =
    rw (by_id-append targets (movie_updates now (by_id targets []) sources) []) (
      movie_updates-IsDone now' _ sources (
        written-IsDone now (by_id targets []) (by_id targets []) sources
          (by_id-IsKeyed targets [] nil-IsKeyed) (λ k w. w)))

-- A sync sends movies as watched, and none that the target has watched already.
pub sync_movies-IsNews :
    (now : Time) (sources targets : List LibraryItem)
    → All (IsNews (by_id targets [])) (sync_movies now sources targets)
unfolding sync_movies
sync_movies-IsNews now sources targets =
    movie_updates-IsNews now (by_id targets []) sources (by_id-IsKeyed targets [] nil-IsKeyed)
