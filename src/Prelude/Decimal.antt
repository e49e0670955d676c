-- ===== src/Prelude/Decimal.antt =====
-- Go's strconv.Itoa and strconv.Atoi for a 64-bit int.
use mathlib.Core.Path.{subst}
use resolver_addon.Prelude.{
  ℕ, zero, suc, ◌+◌, ◌-◌, ◌*◌, ◌/◌, ◌%◌, ◌^◌, ◌≤◌, ◌<◌, ◌≡◌, ◌≢◌, refl, sym, ap, ◌∙◌, ◌&&◌, [], ◌∷◌,
  Option, none, some, arith, inl, inr, Bool-cases, ltb, leb, ◌==◌, if◌then◌else◌,
}
use resolver_addon.Prelude.Bytes.{Bytes, Lacks}
use resolver_addon.Prelude.Int.{ℤ, pos, negsuc}

-- The digits of `n` before `out`, on fuel.
pub digits : ℕ → ℕ → Bytes → Bytes
digits zero n out = out
digits (suc f) n out =
    let rest = digits f (n / 10) ((48 + n % 10) ∷ out) in if ltb n 10 then (48 + n) ∷ out else rest

unfoldable pub itoa : ℤ → Bytes
unfolding digits
itoa (pos n) = digits (suc n) n []
itoa (negsuc n) = b'-' ∷ digits (suc (suc n)) (suc n) []

pub scan : Bytes → ℕ → Option ℕ
scan [] n = some n
scan (c ∷ s) n = if leb b'0' c && leb c b'9' then scan s (n * 10 + (c - b'0')) else none

-- An empty run of digits is an error.
abbrev magnitude : Bytes → Option ℕ
magnitude [] = none
magnitude (c ∷ s) = scan (c ∷ s) 0

abbrev positive : Option ℕ → Option ℤ
positive none = none
positive (some n) = if ltb n (2 ^ 63) then some (pos n) else none

-- -(n); the least value is -2^63
abbrev negative : Option ℕ → Option ℤ
negative none = none
negative (some zero) = some (pos 0)
negative (some (suc n)) = if ltb n (2 ^ 63) then some (negsuc n) else none

unfoldable pub atoi : Bytes → Option ℤ
unfolding scan
atoi [] = none
atoi (c ∷ s) =
    if c == b'-'
    then negative (magnitude s)
    else if c == b'+'
    then positive (magnitude s)
    else positive (magnitude (c ∷ s))

scan-digits : (f n : ℕ) (out : Bytes) → n < f → scan (digits f n out) 0 ≡ scan out n
unfolding scan digits
scan-digits zero n out h = absurd (omega arith)
scan-digits (suc f) n out h = ground (arith, scan-digits f (n / 10) ((48 + n % 10) ∷ out))

abbrev IsDigit : ℕ → Type 0
IsDigit c = (48 ≤ c) × (c ≤ 57)

digits-cons :
    (f n : ℕ) (out : Bytes) → n < f → (c : ℕ) × (s : Bytes) × (digits f n out ≡ c ∷ s) × IsDigit c
unfolding digits
digits-cons zero n out h = absurd (omega arith)
digits-cons (suc f) n out h = elim (Bool-cases (ltb n 10)) [
  | inl last ↦ (48 + n, out, rw last, ground arith)
  | inr more ↦ rw more (digits-cons f (n / 10) ((48 + n % 10) ∷ out) (ground arith))
]

-- The byte `b` is no digit.
abbrev IsNoDigit : ℕ → Type 0
IsNoDigit b = (d : ℕ) → d < 10 → 48 + d ≢ b

digits-Lacks : (b f n : ℕ) (out : Bytes) → IsNoDigit b → Lacks b out → Lacks b (digits f n out)
unfolding digits
digits-Lacks b zero n out hb h = h
digits-Lacks b (suc f) n out hb h = elim (Bool-cases (ltb n 10)) [
  | inl last ↦ rw last (hb n (ground arith), h)
  | inr more ↦
      rw more (digits-Lacks b f (n / 10) ((48 + n % 10) ∷ out) hb (hb (n % 10) (omega arith), h))
]

-- The values of a Go int.
abbrev pub IsInt : ℤ → Type 0
IsInt (pos n) = n < 2 ^ 63
IsInt (negsuc n) = n < 2 ^ 63

itoa-Lacks_no_digit : (b : ℕ) (z : ℤ) → IsNoDigit b → 45 ≢ b → Lacks b (itoa z)
unfolding itoa
itoa-Lacks_no_digit b (pos n) h sign = digits-Lacks b (suc n) n [] h tt
itoa-Lacks_no_digit b (negsuc n) h sign = (sign, digits-Lacks b (suc (suc n)) (suc n) [] h tt)

-- A printed integer holds no byte above the digits, and none below the sign.
pub itoa-Lacks_dash : (n : ℕ) → Lacks b'-' (itoa (pos n))
unfolding itoa
itoa-Lacks_dash n = digits-Lacks b'-' (suc n) n [] (λ d l. omega arith) tt

pub itoa-Lacks : (b : ℕ) (z : ℤ) → 57 < b → Lacks b (itoa z)
itoa-Lacks b z h = itoa-Lacks_no_digit b z (λ d l. omega arith) (omega arith)

pub itoa-Lacks_below : (b : ℕ) (z : ℤ) → b < 45 → Lacks b (itoa z)
itoa-Lacks_below b z h = itoa-Lacks_no_digit b z (λ d l. omega arith) (omega arith)

digits-ne-nil : (f n : ℕ) → n < f → digits f n [] ≢ []
digits-ne-nil f n h e = let (c, s, e', _) = digits-cons f n [] h in cc

magnitude-scan : (s : Bytes) → s ≢ [] → magnitude s ≡ scan s 0
magnitude-scan [] h = absurd (h refl)
magnitude-scan (c ∷ s) h = refl

magnitude-digits : (f n : ℕ) → n < f → magnitude (digits f n []) ≡ some n
magnitude-digits f n h =
    magnitude-scan _ (digits-ne-nil f n h) ∙ scan-digits f n [] h ∙ unfold scan in refl

-- A text that begins with a digit has no sign.
unsigned : (c : ℕ) (s : Bytes) → IsDigit c → atoi (c ∷ s) ≡ positive (magnitude (c ∷ s))
unfolding atoi
unsigned c s h = ground arith

atoi-digits : (f n : ℕ) → n < f → atoi (digits f n []) ≡ positive (magnitude (digits f n []))
atoi-digits f n h =
    let (c, s, e, d) = digits-cons f n [] h in
    subst (λ t. atoi t ≡ positive (magnitude t)) (sym e) (unsigned c s d)

-- Every int is read back from its decimal print.
pub atoi-itoa : (z : ℤ) → IsInt z → atoi (itoa z) ≡ some z
unfolding itoa
atoi-itoa (pos n) h =
    atoi-digits (suc n) n (omega arith)
    ∙ rw (magnitude-digits (suc n) n (omega arith)) (ground arith)
atoi-itoa (negsuc n) h =
    unfold atoi in rw (magnitude-digits (suc (suc n)) (suc n) (omega arith)) (ground arith)

magnitude-inj : (m n : ℕ) → digits (suc m) m [] ≡ digits (suc n) n [] → m ≡ n
magnitude-inj m n e =
    let p =
      sym (magnitude-digits (suc m) m (omega arith))
      ∙ ap (λ s. magnitude s) e
      ∙ magnitude-digits (suc n) n (omega arith) in
    cc

abbrev tail_of : Bytes → Bytes
tail_of [] = []
tail_of (c ∷ s) = s

-- A sign is no digit.
no_sign : (m : ℕ) (s : Bytes) → digits (suc m) m [] ≢ b'-' ∷ s
no_sign m s e =
    let (c, t, e', d) = digits-cons (suc m) m [] (omega arith) in
    let p : c ∷ t ≡ b'-' ∷ s = sym e' ∙ e in ground (arith, p, d)

-- Different integers have different prints.
pub itoa-inj : (a b : ℤ) → itoa a ≡ itoa b → a ≡ b
unfolding itoa
itoa-inj (pos m) (pos n) e = ap pos (magnitude-inj m n e)
itoa-inj (pos m) (negsuc n) e = absurd (no_sign m _ e)
itoa-inj (negsuc m) (pos n) e = absurd (no_sign n _ (sym e))
itoa-inj (negsuc m) (negsuc n) e =
    let p : suc m ≡ suc n = magnitude-inj (suc m) (suc n) (ap (λ s. tail_of s) e) in
    ap negsuc (omega arith)
