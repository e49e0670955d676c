-- ===== src/Prelude/Assoc.antt =====
-- A Go map with string keys: an association list with one entry for each key.
use resolver_addon.Prelude.{
  ◌≡◌, refl, List, [], ◌∷◌, ◌++◌, inl, inr, Bool-cases, Option, none, some, arith, if◌then◌else◌,
}
use resolver_addon.Prelude.Bytes.{Bytes, bytes_eq, bytes_eq_iff}

abbrev pub Assoc {ℓ} : Type ℓ → Type ℓ
Assoc V = List (Bytes × V)

module _ {ℓ} {V : Type ℓ} where
  -- v, ok := m[k]
  unfoldable pub find : Assoc V → Bytes → Option V
  find [] k = none
  find (e ∷ m) k = let later = find m k in if bytes_eq e.0 k then some e.1 else later

  -- m[k] = v
  unfoldable pub store : Assoc V → Bytes → V → Assoc V
  store [] k v = (k, v) ∷ []
  store (e ∷ m) k v = let later = store m k v in if bytes_eq e.0 k then (k, v) ∷ m else e ∷ later

  -- delete(m, k)
  unfoldable pub remove : Assoc V → Bytes → Assoc V
  remove [] k = []
  remove (e ∷ m) k = let later = remove m k in if bytes_eq e.0 k then later else e ∷ later

  -- A stored value is found under its key, and the other keys keep theirs.
  pub find-store :
      (m : Assoc V) (k j : Bytes) (v : V)
      → find (store m k v) j ≡ (if bytes_eq k j then some v else find m j)
  unfolding find store
  find-store [] k j v = refl
  find-store (e ∷ m) k j v =
      ground (arith, find-store m k j v, bytes_eq_iff e.0 k, bytes_eq_iff e.0 j, bytes_eq_iff k j)

  pub find-remove :
      (m : Assoc V) (k j : Bytes) → find (remove m k) j ≡ (if bytes_eq k j then none else find m j)
  unfolding find remove
  find-remove [] k j = ground arith
  find-remove (e ∷ m) k j =
      ground (arith, find-remove m k j, bytes_eq_iff e.0 k, bytes_eq_iff e.0 j, bytes_eq_iff k j)

module _ {ℓ} {V : Type ℓ} where
  -- A new key is stored at the end.
  pub store-new :
      (m : Assoc V) (k : Bytes) (v : V) → find m k ≡ none → store m k v ≡ m ++ (k, v) ∷ []
  unfolding find store
  store-new [] k v h = refl
  store-new (e ∷ m) k v h = elim (Bool-cases (bytes_eq e.0 k)) [
    | inl at ↦ absurd (ground (arith, h, at))
    | inr off ↦ ground (arith, store-new m k v, h, off)
  ]

pub ruleset map_laws = (find-store, find-remove)
