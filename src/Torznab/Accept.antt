-- ===== src/Torznab/Accept.antt =====
-- Which url values ParseQuery of internal/torznab/query.go accepts.
use mathlib.Core.Bool.{Bool-set}
use mathlib.Core.List.{Perm, foldr}
use mathlib.Core.List.Perm
use resolver_addon.Prelude.{
  ◌≡◌, refl, sym, ap, ◌∙◌, Bool, true, false, ◌&&◌, List, [], ◌∷◌, ◌++◌, Option, none, some, Result,
  ok, err, ◌>>=◌, arith,
}
use resolver_addon.Prelude.Affix.{to_lower, is_some}
use resolver_addon.Prelude.Bytes.{Bytes, codes, split}
use resolver_addon.Prelude.Decimal.{atoi}
use resolver_addon.Prelude.Int.{ℤ}
use resolver_addon.Torznab.Query.{Query, Values}
use resolver_addon.Torznab.ParseQuery.{
  Param, t, q, year, ep, season, apikey, limit, offset, cat, imdbid, other, param_of, QueryError,
  number, number_of, ints_of, split_ints, all_cats, set_param, single, parse_from, parse_query,
  empty_query,
}

-- The values of one key, by the kind of its value.
all_numbers : List Bytes → Bool
all_numbers [] = true
all_numbers (v ∷ vs) = is_some (atoi v) && all_numbers vs

all_lists : List Bytes → Bool
all_lists [] = true
all_lists (v ∷ vs) = all_numbers (split v b',') && all_lists vs

one_value : List Bytes → Bool
one_value (v ∷ []) = true
one_value _ = false

one_number : List Bytes → Bool
one_number (v ∷ []) = is_some (atoi v)
one_number _ = false

-- What the switch asks of the values of a key: one value where it takes one, numbers where it reads them.
abbrev good : Param → List Bytes → Bool
good t = one_value
good q = λ (vals : List Bytes). true
good year = one_number
good ep = one_number
good season = one_number
good apikey = one_value
good limit = one_number
good offset = one_number
good cat = all_lists
good imdbid = one_value
good other = λ (vals : List Bytes). true

-- Every key has good values.
unfoldable pub accepts : Values → Bool
unfolding all_numbers all_lists one_value one_number
accepts [] = true
accepts (e ∷ v) = good (param_of (to_lower e.0)) e.1 && accepts v

abbrev pub is_ok {ℓ} : {A : Type ℓ} → Result QueryError A → Bool
is_ok (ok a) = true
is_ok (err e) = false

module _ {ℓ κ} {A : Type ℓ} {B : Type κ} where
  -- Whether a chain gives a value, when each of its steps tells.
  is_ok->>= :
      (o : Result QueryError A) (f : A → Result QueryError B) (b : Bool)
      → ((a : A) → is_ok (f a) ≡ b)
      → is_ok (o >>= f) ≡ is_ok o && b
  is_ok->>= (ok a) f b h = h a
  is_ok->>= (err e) f b h = refl

number_lem : (k v : Bytes) → is_ok (number k v) ≡ is_some (atoi v)
unfolding number
number_lem k v = go (atoi v)
  where
    go : (o : Option ℤ) → is_ok (number_of k o) ≡ is_some o
    go none = refl
    go (some z) = refl

and_true : (b : Bool) → b && true ≡ b
and_true true = refl
and_true false = refl

ints_of_lem : (k : Bytes) (vs : List Bytes) → is_ok (ints_of k vs) ≡ all_numbers vs
unfolding ints_of all_numbers
ints_of_lem k [] = refl
ints_of_lem k (v ∷ vs) =
    is_ok->>= (number k v) _ (all_numbers vs)
      (λ z. is_ok->>= (ints_of k vs) _ true (λ zs. refl) ∙ and_true _ ∙ ints_of_lem k vs)
    ∙ ap (λ b. b && all_numbers vs) (number_lem k v)

all_cats_lem : (zs : List ℤ) (vals : List Bytes) → is_ok (all_cats zs vals) ≡ all_lists vals
unfolding all_cats all_lists
all_cats_lem zs [] = refl
all_cats_lem zs (v ∷ vs) =
    is_ok->>= (split_ints v) _ (all_lists vs) (λ ints. all_cats_lem (zs ++ ints) vs)
    ∙ ap (λ b. b && all_lists vs) (ints_of_lem (codes "cat") (split v b','))

-- A number, and then a step that cannot fail.
then_ok : (k v : Bytes) (f : ℤ → Query) → is_ok (number k v >>= λ z. ok (f z)) ≡ is_some (atoi v)
then_ok k v f = is_ok->>= (number k v) _ true (λ z. refl) ∙ and_true _ ∙ number_lem k v

set_param_lem :
    (p : Param) (vals : List Bytes) (r : Query) → is_ok (set_param p vals r) ≡ good p vals
unfolding set_param single one_value one_number
set_param_lem t [] r = refl
set_param_lem t (v ∷ []) r = refl
set_param_lem t (v ∷ w ∷ vs) r = refl
set_param_lem apikey [] r = refl
set_param_lem apikey (v ∷ []) r = refl
set_param_lem apikey (v ∷ w ∷ vs) r = refl
set_param_lem imdbid [] r = refl
set_param_lem imdbid (v ∷ []) r = refl
set_param_lem imdbid (v ∷ w ∷ vs) r = refl
set_param_lem year [] r = refl
set_param_lem year (v ∷ []) r = then_ok (codes "year") v (λ z. record r { year = z })
set_param_lem year (v ∷ w ∷ vs) r = refl
set_param_lem ep [] r = refl
set_param_lem ep (v ∷ []) r = then_ok (codes "ep") v (λ z. record r { ep = v })
set_param_lem ep (v ∷ w ∷ vs) r = refl
set_param_lem season [] r = refl
set_param_lem season (v ∷ []) r = then_ok (codes "season") v (λ z. record r { season = v })
set_param_lem season (v ∷ w ∷ vs) r = refl
set_param_lem limit [] r = refl
set_param_lem limit (v ∷ []) r = then_ok (codes "limit") v (λ z. record r { limit = z })
set_param_lem limit (v ∷ w ∷ vs) r = refl
set_param_lem offset [] r = refl
set_param_lem offset (v ∷ []) r = then_ok (codes "offset") v (λ z. record r { offset = z })
set_param_lem offset (v ∷ w ∷ vs) r = refl
set_param_lem cat vals r =
    is_ok->>= (all_cats [] vals) _ true (λ cats. refl) ∙ and_true _ ∙ all_cats_lem [] vals
set_param_lem q vals r = refl
set_param_lem other vals r = refl

parse_from_lem : (v : Values) (r : Query) → is_ok (parse_from v r) ≡ accepts v
unfolding parse_from accepts
parse_from_lem [] r = refl
parse_from_lem (e ∷ v) r =
    let p = param_of (to_lower e.0) in
    is_ok->>= (set_param p e.1 r) _ (accepts v) (λ r'. parse_from_lem v r')
    ∙ ap (λ b. b && accepts v) (set_param_lem p e.1 r)

and_swap : (a b c : Bool) → a && (b && c) ≡ b && (a && c)
and_swap a b c = ground arith

abbrev accept_entry : Bytes × List Bytes → Bool → Bool
accept_entry e b = good (param_of (to_lower e.0)) e.1 && b

accepts-foldr : (v : Values) → accepts v ≡ foldr accept_entry true v
unfolding accepts
accepts-foldr [] = refl
accepts-foldr (e ∷ v) = ap (accept_entry e) (accepts-foldr v)

accepts-perm : {v w : Values} → Perm v w → accepts v ≡ accepts w
accepts-perm {v} {w} p =
    accepts-foldr v
    ∙ Perm.foldr-eq Bool-set accept_entry
        (λ a b x.
          and_swap (good (param_of (to_lower a.0)) a.1) (good (param_of (to_lower b.0)) b.1) x)
        p true
    ∙ sym (accepts-foldr w)

-- In whatever order the values are walked, ParseQuery gives a query exactly if every key that it reads has
-- good values: one value for "t", "apikey" and "imdbid", one number for "year", "ep", "season", "limit" and
-- "offset", and lists of numbers for "cat". Otherwise it fails.
pub parse_query-accepts : {v w : Values} → Perm w v → is_ok (parse_query w) ≡ accepts v
parse_query-accepts {v} {w} p = parse_from_lem w empty_query ∙ accepts-perm p
