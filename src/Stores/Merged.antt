-- ===== src/Stores/Merged.antt =====
-- What `CheckMagnet` of internal/stremio/userdata/stores.go finds, whichever store answers first.
use mathlib.Core.List.{Perm}
use resolver_addon.Prelude.{
  ◌≡◌, refl, ap, sym, ◌∙◌, ℕ, ◌+◌, Bool, true, false, not, ◌&&◌, ◌||◌, List, [], ◌∷◌, Option, none,
  some, if◌then◌else◌, length, arith, inl, inr, Bool-cases,
}
use resolver_addon.Prelude.Bytes.{Bytes, bytes_eq, bytes_eq_iff, bytes_eq_refl}
use resolver_addon.Prelude.Affix.{is_some}
use resolver_addon.Prelude.Assoc.{find}
use resolver_addon.Stores.{
  CheckMagnetParams, to_upper, is_nil, merge_answer, Checked, Store, ResolvedStore, CheckMagnetData,
  with_magnets, first_answer, check_store, check_others, numbered, new_data, and_others,
  check_first, check_magnet,
}
use resolver_addon.Stores.Found.{
  uncached, shows, or_some, if_some, any, any-perm, find-first_items, missing-first_items,
  find-merge_items, or_some-none,
}

-- Is this the right code for a hash? It is that of the first store or of one of the others.
abbrev pub fits : Bool → Bytes → Bool → (Bytes → Bool) → Option Bytes → Bool
fits first code others others_as none = not first && not others
fits first code others others_as (some c) = if first then bytes_eq c code else others_as c

fits-or_some :
    (first : Bool) (code : Bytes) (others : Bool) (others_as : Bytes → Bool) (other : Option Bytes)
    → is_some other ≡ others
    → ((c : Bytes) → other ≡ some c → others_as c ≡ true)
    → fits first code others others_as (or_some (if_some first code) other) ≡ true
fits-or_some true code others others_as other e h = bytes_eq_refl code
fits-or_some false code others others_as none e h = rw (sym e) refl
fits-or_some false code others others_as (some c) e h = h c refl

module _ {E : Type 0} where
  abbrev pub shown : Checked E → Bytes → Bool
  shown (Checked.failed e) h = false
  shown (Checked.items list) h = shows list h

  -- The hashes that the other stores are asked for.
  abbrev pub asked : List Bytes → Checked E → List Bytes
  asked magnets (Checked.failed e) = magnets
  asked magnets (Checked.items list) = uncached list

  abbrev pub answers_with : CheckMagnetParams → List Bytes → Bytes → Option (Store E) → Bytes → Bool
  answers_with params hashes token none h = false
  answers_with params hashes token (some s) h = shown (s.check (with_magnets params hashes token)) h

  abbrev pub code_of : Option (Store E) → Bytes
  code_of none = []
  code_of (some s) = to_upper s.code

  -- Does the store, asked for `hashes`, have `h`?
  abbrev pub has : CheckMagnetParams → List Bytes → Bytes → ResolvedStore E → Bool
  has params hashes h r = answers_with params hashes r.auth_token r.store h

  abbrev pub has_as : CheckMagnetParams → List Bytes → Bytes → Bytes → ResolvedStore E → Bool
  has_as params hashes h code r = has params hashes h r && bytes_eq (code_of r.store) code

  -- The code of the first store in the order that has `h`.
  first_of : CheckMagnetParams → List Bytes → List (ℕ × ResolvedStore E) → Bytes → Option Bytes
  first_of params hashes [] h = none
  first_of params hashes (o ∷ order) h =
      or_some (if_some (has params hashes h o.1) (code_of (o.1).store))
        (first_of params hashes order h)

  find-check_store :
      (params : CheckMagnetParams) (hashes : List Bytes) (i : ℕ) (token : Bytes)
      (s : Option (Store E)) (res : CheckMagnetData E) (h : Bytes)
      → find (check_store params hashes i token s res).by_hash h
        ≡ or_some (find res.by_hash h) (if_some (answers_with params hashes token s h) (code_of s))
  find-check_store params hashes i token none res h = ground arith
  find-check_store params hashes i token (some s) res h =
      go (s.check (with_magnets params hashes token))
    where
      go :
          (checked : Checked E)
          → find (merge_answer i (to_upper s.code) checked res).by_hash h
            ≡ or_some (find res.by_hash h) (if_some (shown checked h) (to_upper s.code))
      go (Checked.failed e) = ground arith
      go (Checked.items list) = find-merge_items (to_upper s.code) list res.by_hash h

  find-check_others :
      (params : CheckMagnetParams) (hashes : List Bytes) (order : List (ℕ × ResolvedStore E))
      (res : CheckMagnetData E) (h : Bytes)
      → find (check_others params hashes order res).by_hash h
        ≡ or_some (find res.by_hash h) (first_of params hashes order h)
  unfolding check_others first_of
  find-check_others params hashes [] res h = ground arith
  find-check_others params hashes (o ∷ order) res h =
      find-check_others params hashes order
        (check_store params hashes o.0 (o.1).auth_token (o.1).store res) h
      ∙ (rw (find-check_store params hashes o.0 (o.1).auth_token (o.1).store res h) (ground arith))

  first_of-any :
      (params : CheckMagnetParams) (hashes : List Bytes) (order : List (ℕ × ResolvedStore E))
      (h : Bytes)
      → is_some (first_of params hashes order h) ≡ any (λ o. has params hashes h o.1) order
  unfolding first_of any
  first_of-any params hashes [] h = refl
  first_of-any params hashes (o ∷ order) h = ground (arith, first_of-any params hashes order h)

  first_of-any_as :
      (params : CheckMagnetParams) (hashes : List Bytes) (order : List (ℕ × ResolvedStore E))
      (h code : Bytes)
      → first_of params hashes order h ≡ some code
      → any (λ o. has_as params hashes h code o.1) order ≡ true
  unfolding first_of any
  first_of-any_as params hashes [] h code e = absurd (ground (arith, e))
  first_of-any_as params hashes (o ∷ order) h code e = ground (
    arith,
    e,
    first_of-any_as params hashes order h code,
    bytes_eq_iff (code_of (o.1).store) code,
  )

  any-numbered :
      (p : ResolvedStore E → Bool) (i : ℕ) (stores : List (ResolvedStore E))
      → any (λ o. p o.1) (numbered i stores) ≡ any p stores
  unfolding any numbered
  any-numbered p i [] = refl
  any-numbered p i (s ∷ stores) = ap (λ b. p s || b) (any-numbered p (i + 1) stores)

  -- The codes for `h` that the answer may have, where the first store answers `checked`.
  abbrev pub fits_hash :
      CheckMagnetParams → Bytes → Checked E → List (ResolvedStore E) → Bytes → Option Bytes → Bool
  fits_hash params code checked rest h =
      fits (shown checked h) code
        (not (is_nil (asked params.magnets checked))
          && any (has params (asked params.magnets checked) h) rest)
        (λ c. any (has_as params (asked params.magnets checked) h c) rest)

  abbrev pub IsRight :
      CheckMagnetParams
      → Store E
      → Bytes
      → List (ResolvedStore E)
      → Bytes
      → Option (CheckMagnetData E)
      → Type 0
  IsRight params s token rest h none = true ≡ false
  IsRight params s token rest h (some res) =
      fits_hash params (to_upper s.code) (s.check (with_magnets params params.magnets token)) rest h
        (find res.by_hash h)
      ≡ true

  -- The answer of the first store.
  find-first_answer :
      (more : Bool) (code : Bytes) (magnets : List Bytes) (checked : Checked E) (count : ℕ)
      (h : Bytes)
      → find (first_answer more code magnets checked (new_data count)).0.by_hash h
        ≡ if_some (shown checked h) code
  unfolding find
  find-first_answer more code magnets (Checked.failed e) count h = refl
  find-first_answer more code magnets (Checked.items list) count h =
      find-first_items more code list [] [] h

  missing-first_answer :
      (code : Bytes) (magnets : List Bytes) (checked : Checked E) (count : ℕ)
      → (first_answer true code magnets checked (new_data count)).1 ≡ asked magnets checked
  missing-first_answer code magnets (Checked.failed e) count = refl
  missing-first_answer code magnets (Checked.items list) count = missing-first_items code list [] []

  first_alone :
      (params : CheckMagnetParams) (code : Bytes) (checked : Checked E)
      (rest : List (ResolvedStore E)) (h : Bytes)
      → (not (is_nil (asked params.magnets checked))
          && any (has params (asked params.magnets checked) h) rest)
        ≡ false
      → fits_hash params code checked rest h (if_some (shown checked h) code) ≡ true
  first_alone params code checked rest h e =
      rw (sym (or_some-none (if_some (shown checked h) code)))
        (fits-or_some (shown checked h) code _ _ none (sym e) (λ c n. absurd (ground (arith, n))))

  others_fit :
      (params : CheckMagnetParams) (code : Bytes) (checked : Checked E)
      (order : List (ℕ × ResolvedStore E)) (rest : List (ResolvedStore E)) (h : Bytes)
      (r : CheckMagnetData E × List Bytes)
      → Perm order (numbered 1 rest)
      → r.1 ≡ asked params.magnets checked
      → find (r.0).by_hash h ≡ if_some (shown checked h) code
      → fits_hash params code checked rest h (find (and_others params order true r).by_hash h)
        ≡ true
  others_fit params code checked order rest h r p e found =
      elim (Bool-cases (is_nil (asked params.magnets checked))) [
        | inl nil ↦
            ap (fits_hash params code checked rest h) (rw (e, nil) found)
            ∙ first_alone params code checked rest h (rw nil refl)
        | inr more ↦
            rw (e, more, find-check_others params (asked params.magnets checked) order r.0 h, found)
              (fits-or_some (shown checked h) code _ _
                (first_of params (asked params.magnets checked) order h)
                (first_of-any params (asked params.magnets checked) order h
                  ∙ any-perm (λ o. has params (asked params.magnets checked) h o.1) p
                  ∙ any-numbered (has params (asked params.magnets checked) h) 1 rest)
                (λ c at.
                  sym (
                    any-perm (λ o. has_as params (asked params.magnets checked) h c o.1) p
                    ∙ any-numbered (has_as params (asked params.magnets checked) h c) 1 rest)
                  ∙ first_of-any_as params (asked params.magnets checked) order h c at))
      ]

  several :
      (order : List (ℕ × ResolvedStore E)) (s : Store E) (token : Bytes)
      (rest : List (ResolvedStore E)) (params : CheckMagnetParams) (h : Bytes) (count : ℕ)
      (more : Bool)
      → more ≡ true
      → Perm order (numbered 1 rest)
      → IsRight params s token rest h (check_first order params more count token (some s))
  several order s token rest params h count false e p = absurd (ground (arith, e))
  several order s token rest params h count true e p =
      let checked = s.check (with_magnets params params.magnets token) in
      others_fit params (to_upper s.code) checked order rest h
        (first_answer true (to_upper s.code) params.magnets checked (new_data count)) p
        (missing-first_answer (to_upper s.code) params.magnets checked count)
        (find-first_answer true (to_upper s.code) params.magnets checked count h)

  -- In whatever order the other stores answer, ByHash has the code of the first store for each hash that it has
  -- cached. For each hash else it has the code of a store that has it cached, if one of the others has, which
  -- are asked for the hashes that the first says it has not cached, or for all if it fails; and it has none
  -- otherwise.
  pub check_magnet-IsRight :
      (order : List (ℕ × ResolvedStore E)) (s : Store E) (token : Bytes)
      (rest : List (ResolvedStore E)) (params : CheckMagnetParams) (h : Bytes)
      → Perm order (numbered 1 rest)
      → IsRight params s token rest h
          (check_magnet order (record { store = some s; auth_token = token } ∷ rest) params)
  unfolding check_magnet any
  check_magnet-IsRight order s token [] params h p =
      let checked = s.check (with_magnets params params.magnets token) in
      rw (find-first_answer false (to_upper s.code) params.magnets checked 1 h)
        (first_alone params (to_upper s.code) checked [] h (ground arith))
  check_magnet-IsRight order s token (other ∷ rest) params h p =
      several order s token (other ∷ rest) params h
        (length (record { store = some s; auth_token = token } ∷ other ∷ rest)) _ (ground arith) p
