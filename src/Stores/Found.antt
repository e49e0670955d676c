-- ===== src/Stores/Found.antt =====
-- What the loops over the items in `CheckMagnet` of internal/stremio/userdata/stores.go find.
use mathlib.Core.Bool.{Bool-set}
use mathlib.Core.List.{Perm, foldr}
use mathlib.Core.List.Perm
use resolver_addon.Prelude.{
  ◌≡◌, refl, ap, sym, ◌∙◌, Bool, true, false, ◌&&◌, ◌||◌, List, [], ◌∷◌, ◌++◌, Option, none, some,
  if◌then◌else◌, arith, inl, inr, Bool-cases, append-nil, append_assoc,
}
use resolver_addon.Prelude.Bytes.{Bytes, bytes_eq, bytes_eq_sound, bytes_eq_refl}
use resolver_addon.Prelude.Assoc.{Assoc, find, store, find-store}
use resolver_addon.Stores.{CheckMagnetDataItem, is_cached, first_items, merge_item, merge_items}

-- The hashes of the items that are not cached.
unfoldable pub uncached : List CheckMagnetDataItem → List Bytes
uncached [] = []
uncached (item ∷ items) =
    let rest = uncached items in if is_cached item then rest else item.hash ∷ rest

-- Is one of the items cached and has the hash `h`?
unfoldable pub shows : List CheckMagnetDataItem → Bytes → Bool
shows [] h = false
shows (item ∷ items) h = (is_cached item && bytes_eq item.hash h) || shows items h

-- The first of the two that there is.
abbrev pub or_some : Option Bytes → Option Bytes → Option Bytes
or_some none b = b
or_some (some a) b = some a

abbrev pub if_some : Bool → Bytes → Option Bytes
if_some b code = if b then some code else none

unfoldable pub any {ℓ} : {A : Type ℓ} → (A → Bool) → List A → Bool
any p [] = false
any p (x ∷ xs) = p x || any p xs

any-foldr : {A : Type 0} (p : A → Bool) (xs : List A) → any p xs ≡ foldr (λ x b. p x || b) false xs
unfolding any
any-foldr p [] = refl
any-foldr p (x ∷ xs) = ap (λ b. p x || b) (any-foldr p xs)

pub any-perm : {A : Type 0} (p : A → Bool) {xs ys : List A} → Perm xs ys → any p xs ≡ any p ys
any-perm p {xs} {ys} h =
    any-foldr p xs
    ∙ Perm.foldr-eq Bool-set (λ x b. p x || b) (λ x y b. or_swap (p x) (p y) b) h false
    ∙ sym (any-foldr p ys)
  where
    or_swap : (a b c : Bool) → a || (b || c) ≡ b || (a || c)
    or_swap a b c = ground arith

pub find-first_items :
    (more : Bool) (code : Bytes) (items : List CheckMagnetDataItem) (m : Assoc Bytes)
    (missing : List Bytes) (h : Bytes)
    → find (first_items more code items m missing).0 h
      ≡ (if shows items h then some code else find m h)
unfolding first_items shows
find-first_items more code [] m missing h = refl
find-first_items more code (item ∷ items) m missing h = ground (
  arith,
  find-first_items more code items (store m item.hash code) missing h,
  find-first_items more code items m (missing ++ item.hash ∷ []) h,
  find-first_items more code items m missing h,
  find-store m item.hash h code,
)

pub missing-first_items :
    (code : Bytes) (items : List CheckMagnetDataItem) (m : Assoc Bytes) (missing : List Bytes)
    → (first_items true code items m missing).1 ≡ missing ++ uncached items
unfolding first_items uncached
missing-first_items code [] m missing = sym (append-nil missing)
missing-first_items code (item ∷ items) m missing = elim (Bool-cases (is_cached item)) [
  | inl on ↦ rw on (missing-first_items code items (store m item.hash code) missing)
  | inr off ↦ rw off (
      missing-first_items code items m (missing ++ item.hash ∷ [])
      ∙ append_assoc missing (item.hash ∷ []) (uncached items))
]

find-merge_item :
    (code : Bytes) (item : CheckMagnetDataItem) (m : Assoc Bytes) (h : Bytes)
    → find (merge_item code item m) h
      ≡ or_some (find m h) (if_some (is_cached item && bytes_eq item.hash h) code)
find-merge_item code item m h = elim (Bool-cases (bytes_eq item.hash h)) [
  | inl at ↦
      rw (bytes_eq_sound item.hash h at) (ground (arith, find-store m h h code, bytes_eq_refl h))
  | inr off ↦ ground (arith, find-store m item.hash h code, off)
]

pub find-merge_items :
    (code : Bytes) (items : List CheckMagnetDataItem) (m : Assoc Bytes) (h : Bytes)
    → find (merge_items code items m) h ≡ or_some (find m h) (if_some (shows items h) code)
unfolding merge_items shows
find-merge_items code [] m h = ground arith
find-merge_items code (item ∷ items) m h =
    ground
      (arith, find-merge_items code items (merge_item code item m) h, find-merge_item code item m h)

pub or_some-none : (a : Option Bytes) → or_some a none ≡ a
or_some-none none = refl
or_some-none (some a) = refl
