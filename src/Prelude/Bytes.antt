-- ===== src/Prelude/Bytes.antt =====
-- Text that the program walks is a list of bytes. Go's `strings.Split` and `strings.Join` for a
-- separator of one byte, and the code points of a literal.
use Prim.Native.Char.{code}
use resolver_addon.Prelude.{
  ◌↔◌, ℕ, String, ◌∙◌, ◌≡◌, ◌≢◌, refl, inl, inr, Bool, true, false, ◌&&◌, Bool-cases, List, [], ◌∷◌,
  ◌++◌, append_assoc, append-nil, arith, ◌==◌, All,
}

abbrev pub Bytes : Type 0
Bytes = List ℕ

-- The code points of a literal; these are its bytes when the text is ASCII.
abbrev pub codes : String → Bytes
codes String.[] = []
codes (String.◌∷◌ c s) = code c ∷ codes s

abbrev pub Lacks : ℕ → Bytes → Type 0
Lacks b = All (λ c. c ≢ b)

-- `cur` is the part that is being read.
pub split_from : ℕ → Bytes → Bytes → List Bytes
split_from sep cur [] = cur ∷ []
split_from sep cur (c ∷ s) = elim (c == sep) [
  | true ↦ cur ∷ split_from sep [] s
  | false ↦ split_from sep (cur ++ c ∷ []) s
]

-- strings.Split(s, sep)
unfoldable pub split : Bytes → ℕ → List Bytes
unfolding split_from
split s sep = split_from sep [] s

-- strings.Join(parts, sep)
unfoldable pub join : List Bytes → ℕ → Bytes
join [] sep = []
join (p ∷ []) sep = p
join (p ∷ q ∷ ps) sep = p ++ sep ∷ join (q ∷ ps) sep

split_from-Lacks : (sep : ℕ) (cur p : Bytes) → Lacks sep p → split_from sep cur p ≡ (cur ++ p) ∷ []
unfolding split_from
split_from-Lacks sep cur [] h = simp append-nil
split_from-Lacks sep cur (c ∷ p) (hc, hp) =
    ground (arith, split_from-Lacks sep (cur ++ c ∷ []) p hp, append_assoc cur (c ∷ []) p)

-- A text without the separator is one part.
pub split-Lacks : (sep : ℕ) (p : Bytes) → Lacks sep p → split p sep ≡ p ∷ []
unfolding split
split-Lacks sep p h = split_from-Lacks sep [] p h

split_from-append :
    (sep : ℕ) (cur p q : Bytes)
    → split_from sep cur (p ++ sep ∷ q) ≡ split_from sep cur p ++ split_from sep [] q
unfolding split_from
split_from-append sep cur [] q = ground arith
split_from-append sep cur (c ∷ p) q = elim (Bool-cases (c == sep)) [
  | inl at ↦ rw (at, split_from) (rw (split_from-append sep [] p q))
  | inr off ↦ rw (off, split_from) (split_from-append sep (cur ++ c ∷ []) p q)
]

-- The parts of a text are those before a separator and those behind it.
pub split-append : (sep : ℕ) (p q : Bytes) → split (p ++ sep ∷ q) sep ≡ split p sep ++ split q sep
unfolding split
split-append sep p q = split_from-append sep [] p q

split_from-cons :
    (sep : ℕ) (cur s : Bytes) → (p : Bytes) × (ps : List Bytes) × (split_from sep cur s ≡ p ∷ ps)
unfolding split_from
split_from-cons sep cur [] = (cur, [], refl)
split_from-cons sep cur (c ∷ s) = elim (Bool-cases (c == sep)) [
  | inl at ↦ (cur, split_from sep [] s, rw (at, split_from))
  | inr off ↦ rw (off, split_from) (split_from-cons sep (cur ++ c ∷ []) s)
]

pub split-cons : (sep : ℕ) (s : Bytes) → (p : Bytes) × (ps : List Bytes) × (split s sep ≡ p ∷ ps)
unfolding split
split-cons sep s = split_from-cons sep [] s

join-cons :
    (sep : ℕ) (p : Bytes) (ps : List Bytes) → ps ≢ [] → join (p ∷ ps) sep ≡ p ++ sep ∷ join ps sep
unfolding join
join-cons sep p [] h = absurd (h refl)
join-cons sep p (q ∷ ps) h = refl

split_from-ne-nil : (sep : ℕ) (cur s : Bytes) → split_from sep cur s ≢ []
split_from-ne-nil sep cur s h = let (p, ps, e) = split_from-cons sep cur s in cc

join-split_from : (sep : ℕ) (cur s : Bytes) → join (split_from sep cur s) sep ≡ cur ++ s
unfolding split_from
join-split_from sep cur [] = unfold join in rw append-nil
join-split_from sep cur (c ∷ s) = elim (Bool-cases (c == sep)) [
  | inl at ↦
      rw (at, split_from)
        (join-cons sep cur _ (split_from-ne-nil sep [] s)
          ∙ ground (arith, join-split_from sep [] s))
  | inr off ↦
      rw (off, split_from) (join-split_from sep (cur ++ c ∷ []) s ∙ append_assoc cur (c ∷ []) s)
]

-- Joining the parts gives the text back.
pub join-split : (sep : ℕ) (s : Bytes) → join (split s sep) sep ≡ s
unfolding split
join-split sep s = join-split_from sep [] s

-- Parts without the separator are split again after they are joined.
pub split-join :
    (sep : ℕ) (p : Bytes) (ps : List Bytes)
    → All (Lacks sep) (p ∷ ps)
    → split (join (p ∷ ps) sep) sep ≡ p ∷ ps
unfolding join
split-join sep p [] (h, _) = split-Lacks sep p h
split-join sep p (q ∷ ps) (h, hs) =
    split-append sep p (join (q ∷ ps) sep) ∙ rw (split-Lacks sep p h, split-join sep q ps hs)

-- a == b on texts
unfoldable pub bytes_eq : Bytes → Bytes → Bool
bytes_eq [] [] = true
bytes_eq [] (d ∷ t) = false
bytes_eq (c ∷ s) [] = false
bytes_eq (c ∷ s) (d ∷ t) = c == d && bytes_eq s t

pub bytes_eq_sound : (s t : Bytes) → bytes_eq s t ≡ true → s ≡ t
unfolding bytes_eq
bytes_eq_sound [] [] h = refl
bytes_eq_sound [] (d ∷ t) h = cc
bytes_eq_sound (c ∷ s) [] h = cc
bytes_eq_sound (c ∷ s) (d ∷ t) h = ground (arith, bytes_eq_sound s t)

pub bytes_eq_refl : (s : Bytes) → bytes_eq s s ≡ true
unfolding bytes_eq
bytes_eq_refl [] = refl
bytes_eq_refl (c ∷ s) = ground (arith, bytes_eq_refl s)

pub bytes_eq_iff : (s t : Bytes) → (bytes_eq s t ≡ true) ↔ (s ≡ t)
bytes_eq_iff s t = (bytes_eq_sound s t, λ e. rw e (bytes_eq_refl t))
