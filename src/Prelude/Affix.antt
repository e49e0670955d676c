-- ===== src/Prelude/Affix.antt =====
-- Go's strings.HasPrefix, TrimPrefix, HasSuffix and Contains, and ToLower on ASCII text.
use resolver_addon.Prelude.{
  ℕ, ◌+◌, ◌≡◌, refl, Bool, true, false, ◌&&◌, ◌||◌, [], ◌∷◌, ◌++◌, Option, none, some, arith, leb,
  ◌==◌, map, if◌then◌else◌,
}
use resolver_addon.Prelude.Bytes.{Bytes, Lacks}

-- What is behind the prefix `p` of `s`.
unfoldable pub cut_prefix : Bytes → Bytes → Option Bytes
cut_prefix s [] = some s
cut_prefix [] (d ∷ p) = none
cut_prefix (c ∷ s) (d ∷ p) = let rest = cut_prefix s p in if c == d then rest else none

abbrev pub is_some {ℓ} : {A : Type ℓ} → Option A → Bool
is_some none = false
is_some (some a) = true

abbrev pub or_else {ℓ} : {A : Type ℓ} → Option A → A → A
or_else none d = d
or_else (some a) d = a

-- strings.HasPrefix(s, p)
abbrev pub has_prefix : Bytes → Bytes → Bool
has_prefix s p = is_some (cut_prefix s p)

-- strings.TrimPrefix(s, p)
abbrev pub trim_prefix : Bytes → Bytes → Bytes
trim_prefix s p = or_else (cut_prefix s p) s

-- A byte of A-Z becomes that of a-z.
abbrev lower : ℕ → ℕ
lower c = if leb b'A' c && leb c b'Z' then c + 32 else c

-- strings.ToLower(s)
abbrev pub to_lower : Bytes → Bytes
to_lower s = map lower s

-- strings.Contains(s, p)
unfoldable pub contains : Bytes → Bytes → Bool
contains [] p = has_prefix [] p
contains (c ∷ s) p = has_prefix (c ∷ s) p || contains s p

pub cut_prefix-append : (p s : Bytes) → cut_prefix (p ++ s) p ≡ some s
unfolding cut_prefix
cut_prefix-append [] s = refl
cut_prefix-append (c ∷ p) s = ground (arith, cut_prefix-append p s)

-- strings.Cut(s, sep)
unfoldable pub cut : Bytes → ℕ → Option (Bytes × Bytes)
cut [] sep = none
cut (c ∷ s) sep =
    let later = cut s sep in
    if c == sep then some ([], s) else elim later [ none ↦ none | some (a, b) ↦ some (c ∷ a, b) ]

pub cut-append : (sep : ℕ) (a b : Bytes) → Lacks sep a → cut (a ++ sep ∷ b) sep ≡ some (a, b)
unfolding cut
cut-append sep [] b h = ground arith
cut-append sep (c ∷ a) b (hc, h) = ground (arith, hc, cut-append sep a b h)

pub cut-Lacks : (sep : ℕ) (a : Bytes) → Lacks sep a → cut a sep ≡ none
unfolding cut
cut-Lacks sep [] h = refl
cut-Lacks sep (c ∷ a) (hc, h) = ground (arith, hc, cut-Lacks sep a h)
