-- ===== src/Watched/Video.antt =====
-- A video is found by its id: `slices.Index`, `GetVideo` and `SetVideo`.
use resolver_addon.BitField
use resolver_addon.BitField.Access.{IsValid, get-set_bit}
use resolver_addon.Prelude.{All, All-at, sym}
use resolver_addon.Prelude.{
  ℕ, zero, suc, ◌<◌, ◌≡◌, ◌≢◌, refl, ◌∙◌, ap, Bool, true, false, ◌&&◌, List, [], ◌∷◌, none, some,
  arith, inl, inr, Bool-cases, Option-cases, ◌==◌, if◌then◌else◌, length, get_or,
}
use resolver_addon.Prelude.Bytes.{Bytes, bytes_eq, bytes_eq_sound, bytes_eq_refl}
use resolver_addon.Watched.{WatchedBitField, index_of, get_video, set_video}

-- No id stands at two places.
abbrev pub IsDistinct : List Bytes → Type 0
IsDistinct [] = Unit
IsDistinct (x ∷ xs) = All (λ y. bytes_eq x y ≡ false) xs × IsDistinct xs

get_or-ne :
    (x : Bytes) (xs : List Bytes) (j : ℕ)
    → All (λ y. bytes_eq x y ≡ false) xs
    → j < length xs
    → x ≢ get_or xs j []
get_or-ne x xs j h lt e =
    let apart = All-at (λ y. bytes_eq x y ≡ false) xs j [] h lt in ground (arith, bytes_eq_refl x)

get_or-injective :
    (ids : List Bytes) (i j : ℕ)
    → IsDistinct ids
    → i < length ids
    → j < length ids
    → get_or ids i [] ≡ get_or ids j []
    → i ≡ j
get_or-injective [] i j d hi hj e = absurd (omega arith)
get_or-injective (x ∷ xs) zero zero d hi hj e = refl
get_or-injective (x ∷ xs) zero (suc j) d hi hj e = absurd (get_or-ne x xs j d.0 (omega arith) e)
get_or-injective (x ∷ xs) (suc i) zero d hi hj e =
    absurd (get_or-ne x xs i d.0 (omega arith) (sym e))
get_or-injective (x ∷ xs) (suc i) (suc j) d hi hj e =
    ap suc (get_or-injective xs i j d.1 (omega arith) (omega arith) e)

pub index_of-some :
    (ids : List Bytes) (id : Bytes) (i : ℕ)
    → index_of ids id ≡ some i
    → (i < length ids) × (get_or ids i [] ≡ id)
unfolding index_of
index_of-some [] id i e = cc
index_of-some (x ∷ xs) id zero e = ground (arith, bytes_eq_sound x id)
index_of-some (x ∷ xs) id (suc i) e = ground (arith, index_of-some xs id i)

index_of-none :
    (ids : List Bytes) (id : Bytes) (i : ℕ)
    → index_of ids id ≡ none
    → i < length ids
    → get_or ids i [] ≢ id
unfolding index_of
index_of-none [] id i e h = absurd (omega arith)
index_of-none (x ∷ xs) id zero e h = λ q. ground (arith, bytes_eq_refl x)
index_of-none (x ∷ xs) id (suc i) e h = λ q. ground (arith, index_of-none xs id i)

-- The index of an entry of a list without repetition is where it stands.
pub index_of-get_or :
    (ids : List Bytes) (k : ℕ)
    → IsDistinct ids
    → k < length ids
    → index_of ids (get_or ids k []) ≡ some k
index_of-get_or ids k d h = elim (Option-cases (index_of ids (get_or ids k []))) [
  | inl gone ↦ absurd (index_of-none ids _ k gone h refl)
  | inr (i, found) ↦
      let (hi, e) = index_of-some ids _ i found in
      found ∙ ap some (get_or-injective ids i k d hi h e)
]

-- Two ids that are in the list are equal exactly when they are found at one place.
index_of-eq :
    (ids : List Bytes) (id id' : Bytes) (i j : ℕ)
    → index_of ids id ≡ some i
    → index_of ids id' ≡ some j
    → bytes_eq id id' ≡ (i == j)
index_of-eq ids id id' i j e e' = elim (Bool-cases (bytes_eq id id')) [
  | inl same ↦ let s = bytes_eq_sound id id' same in ground arith
  | inr other ↦
      let (_, p) = index_of-some ids id i e in
      let (_, q) = index_of-some ids id' j e' in ground (arith, bytes_eq_refl id)
]

pub get_video-some :
    (w : WatchedBitField) (id : Bytes) (i : ℕ)
    → index_of w.video_ids id ≡ some i
    → get_video w id ≡ BitField.get w.bitfield i
unfolding get_video
get_video-some w id i e = rw (e, get_video)

pub get_video-none :
    (w : WatchedBitField) (id : Bytes) → index_of w.video_ids id ≡ none → get_video w id ≡ false
unfolding get_video
get_video-none w id e = rw (e, get_video)

set_video-some :
    (w : WatchedBitField) (id : Bytes) (i : ℕ) (v : Bool)
    → index_of w.video_ids id ≡ some i
    → set_video w id v ≡ record w { bitfield = BitField.set_bit w.bitfield i v }
unfolding set_video
set_video-some w id i v e = rw (e, set_video)

set_video-none :
    (w : WatchedBitField) (id : Bytes) (v : Bool)
    → index_of w.video_ids id ≡ none
    → set_video w id v ≡ w
unfolding set_video
set_video-none w id v e = rw (e, set_video)

-- The id is one of the list.
abbrev pub is_video : List Bytes → Bytes → Bool
is_video ids id = elim (index_of ids id) [ none ↦ false | some i ↦ true ]

-- Marking a video of a well-formed field changes what is read of that video and of no other; an id
-- that is not in the list changes nothing.
pub get_video-set_video :
    (w : WatchedBitField) (id id' : Bytes) (v : Bool)
    → IsValid w.bitfield
    → get_video (set_video w id v) id'
      ≡ (if bytes_eq id id' && is_video w.video_ids id then v else get_video w id')
get_video-set_video w id id' v h = elim (Option-cases (index_of w.video_ids id)) [
  | inl gone ↦ rw (set_video-none w id v gone) (ground arith)
  | inr (i, found) ↦
      rw (set_video-some w id i v found) (elim (Option-cases (index_of w.video_ids id')) [
        | inl gone ↦
            let marked = record w { bitfield = BitField.set_bit w.bitfield i v } in
            ground (
              arith,
              bytes_eq_sound id id',
              get_video-none w id' gone,
              get_video-none marked id' gone,
            )
        | inr (j, found') ↦
            let marked = record w { bitfield = BitField.set_bit w.bitfield i v } in
            ground (
              arith,
              get_video-some w id' j found',
              get_video-some marked id' j found',
              get-set_bit w.bitfield i j v h,
              index_of-eq w.video_ids id id' i j found found',
            )
      ])
]
