-- ===== src/Torznab/RoundTrip.antt =====
-- ParseQuery reads what ToValues of internal/torznab/query.go writes.
use mathlib.Core.Path.{subst}
use resolver_addon.Prelude.{
  ◌≡◌, refl, sym, ap, ◌∙◌, Bool, true, false, List, [], ◌∷◌, ◌++◌, none, some, ok, arith, inl, inr,
  All, map, ◌⊎◌,
}
use resolver_addon.Prelude.Affix.{has_prefix, trim_prefix, cut_prefix-append, or_else}
use resolver_addon.Prelude.Assoc.{store, find}
use resolver_addon.Prelude.Bytes.{Bytes, bytes_eq, codes, join}
use resolver_addon.Prelude.Decimal.{itoa, atoi, IsInt}
use resolver_addon.Prelude.Int.{ℤ, pos}
use resolver_addon.Torznab.Query.{
  Query, Values, set_text, set_int, set_flag, set_cats, set_imdb, to_values, type_or_search,
}
use resolver_addon.Torznab.ParseQuery.{
  empty_query, set_entry, set_param, parse_query, single, number, number_of, param_of, with_tt,
  parse_from,
}
use resolver_addon.Torznab.Stages.{
  Stage, Stage-same, all_differ, Stage-store, Stage-set_text, Stage-set_int, number-itoa,
  all_cats-itoa,
}

-- The keys of ToValues, behind "t".
abbrev keys : List Bytes
keys =
    codes "q"
    ∷ codes "ep"
    ∷ codes "season"
    ∷ codes "movie"
    ∷ codes "year"
    ∷ codes "series"
    ∷ codes "offset"
    ∷ codes "limit"
    ∷ codes "extended"
    ∷ codes "apikey"
    ∷ codes "cat"
    ∷ codes "tvdbid"
    ∷ codes "rid"
    ∷ codes "tvmazeid"
    ∷ codes "traktid"
    ∷ codes "imdbid"
    ∷ []

-- Empty, or a number.
abbrev pub IsNumeric : Bytes → Type 0
IsNumeric s = (s ≡ []) ⊎ ((z : ℤ) × (atoi s ≡ some z))

-- Empty, or "tt" once and more.
abbrev pub IsImdbId : Bytes → Type 0
IsImdbId id =
    (id ≡ []) ⊎ ((s : Bytes) × (id ≡ codes "tt" ++ s) × (has_prefix s (codes "tt") ≡ false))

pub record IsPrintable (query : Query) : Type 0 where
  pub ep : IsNumeric query.ep
  pub season : IsNumeric query.season
  pub year : IsInt query.year
  pub limit : IsInt query.limit
  pub offset : IsInt query.offset
  pub categories : All IsInt query.categories
  pub imdb_id : IsImdbId query.imdb_id

-- The fields that ParseQuery reads.
abbrev read :
    (type q ep season api_key imdb_id : Bytes) (year offset limit : ℤ) (categories : List ℤ) → Query
read type q ep season api_key imdb_id year offset limit categories = record empty_query {
  type = type;
  q = q;
  ep = ep;
  season = season;
  api_key = api_key;
  imdb_id = imdb_id;
  year = year;
  offset = offset;
  limit = limit;
  categories = categories;
}

-- What is left of a query: the fields that ParseQuery reads, and "search" for no type.
abbrev pub kept : Query → Query
kept r =
    read (type_or_search r.type) r.q r.ep r.season r.api_key r.imdb_id r.year r.offset r.limit
      r.categories

number-IsNumeric :
    (k s : Bytes) → IsNumeric s → bytes_eq s [] ≡ false → (z : ℤ) × (number k s ≡ ok z)
unfolding number bytes_eq
number-IsNumeric k s (inl e) h = absurd (ground (arith, e, h))
number-IsNumeric k s (inr (z, e)) h = (z, ap (number_of k) e)

abbrev z0 : ℤ
z0 = pos 0

-- One round for each key whose value is a number.
set_ep :
    (val : Bytes) (z : ℤ) (r : Query)
    → number (codes "ep") val ≡ ok z
    → set_entry (codes "ep", val ∷ []) r ≡ ok (record r { ep = val })
unfolding set_param param_of single bytes_eq
set_ep val z r h = rw h

set_season :
    (val : Bytes) (z : ℤ) (r : Query)
    → number (codes "season") val ≡ ok z
    → set_entry (codes "season", val ∷ []) r ≡ ok (record r { season = val })
unfolding set_param param_of single bytes_eq
set_season val z r h = rw h

set_year :
    (z : ℤ) (r : Query)
    → IsInt z
    → set_entry (codes "year", itoa z ∷ []) r ≡ ok (record r { year = z })
unfolding set_param param_of single bytes_eq
set_year z r h = rw (number-itoa (codes "year") z h)

set_limit :
    (z : ℤ) (r : Query)
    → IsInt z
    → set_entry (codes "limit", itoa z ∷ []) r ≡ ok (record r { limit = z })
unfolding set_param param_of single bytes_eq
set_limit z r h = rw (number-itoa (codes "limit") z h)

set_offset :
    (z : ℤ) (r : Query)
    → IsInt z
    → set_entry (codes "offset", itoa z ∷ []) r ≡ ok (record r { offset = z })
unfolding set_param param_of single bytes_eq
set_offset z r h = rw (number-itoa (codes "offset") z h)

set_cat :
    (z : ℤ) (zs : List ℤ) (r : Query)
    → All IsInt (z ∷ zs)
    → set_entry (codes "cat", join (map itoa (z ∷ zs)) b',' ∷ []) r
      ≡ ok (record r { categories = z ∷ zs })
unfolding set_param param_of bytes_eq
set_cat z zs r h = rw (all_cats-itoa z zs h)

set_imdbid :
    (val : Bytes) (r : Query)
    → set_entry (codes "imdbid", val ∷ []) r ≡ ok (record r { imdb_id = with_tt val })
unfolding set_param param_of single bytes_eq
set_imdbid val r = refl

Stage-set_cats :
    {ks : List Bytes} {v : Values} (zs : List ℤ) (f : List ℤ → Query)
    → all_differ (codes "cat") ks ≡ true
    → ((z : ℤ) (zs : List ℤ)
        → All IsInt (z ∷ zs)
        → set_entry (codes "cat", join (map itoa (z ∷ zs)) b',' ∷ []) (f []) ≡ ok (f (z ∷ zs)))
    → All IsInt zs
    → Stage (codes "cat" ∷ ks) v (f [])
    → Stage ks (set_cats zs v) (f zs)
unfolding set_cats
Stage-set_cats [] f a h i st = Stage-same refl st
Stage-set_cats (z ∷ zs) f a h i st =
    Stage-store (codes "cat") (join (map itoa (z ∷ zs)) b',' ∷ []) a (h z zs i) st

-- The prefix is taken off and put back.
with_tt-trim :
    (s : Bytes)
    → has_prefix s (codes "tt") ≡ false
    → with_tt (trim_prefix (codes "tt" ++ s) (codes "tt")) ≡ codes "tt" ++ s
with_tt-trim s h =
    ap (λ o. with_tt (or_else o (codes "tt" ++ s))) (cut_prefix-append (codes "tt") s) ∙ rw h

Stage-set_imdb :
    {ks : List Bytes} {v : Values} (id : Bytes) (f : Bytes → Query)
    → all_differ (codes "imdbid") ks ≡ true
    → ((val : Bytes) → set_entry (codes "imdbid", val ∷ []) (f []) ≡ ok (f (with_tt val)))
    → IsImdbId id
    → Stage (codes "imdbid" ∷ ks) v (f [])
    → Stage ks (set_imdb id v) (f id)
unfolding set_imdb bytes_eq
Stage-set_imdb {ks} {v} id f a h (inl e) st =
    subst (λ x. Stage ks (set_imdb x v) (f x)) (sym e) (Stage-same refl st)
Stage-set_imdb {ks} {v} id f a h (inr (s, e, n)) st =
    subst (λ x. Stage ks (set_imdb x v) (f x)) (sym e)
      (Stage-store (codes "imdbid") _ a
        (h (trim_prefix (codes "tt" ++ s) (codes "tt")) ∙ ap (λ x. ok (f x)) (with_tt-trim s n)) st)

-- A flag that ParseQuery does not read.
Stage-set_flag :
    {ks : List Bytes} {v : Values} {r : Query} (k : Bytes) (b : Bool)
    → all_differ k ks ≡ true
    → set_entry (k, codes "1" ∷ []) r ≡ ok r
    → Stage (k ∷ ks) v r
    → Stage ks (set_flag k b v) r
unfolding set_flag
Stage-set_flag k true a h st = Stage-store k (codes "1" ∷ []) a h st
Stage-set_flag k false a h st = Stage-same refl st

find_nothing : (ks : List Bytes) → All (λ k. find {V = List Bytes} [] k ≡ none) ks
unfolding find
find_nothing [] = tt
find_nothing (k ∷ ks) = (refl, find_nothing ks)

-- Nothing is set.
Stage-start : Stage (codes "t" ∷ keys) [] empty_query
unfolding parse_from
Stage-start = record { unset = find_nothing (codes "t" ∷ keys); parsed = refl }

module _ (query : Query) (p : IsPrintable query) where
  -- The texts and numbers up to "limit".
  Stage-limit :
      Stage
        (codes "extended"
          ∷ codes "apikey"
          ∷ codes "cat"
          ∷ codes "tvdbid"
          ∷ codes "rid"
          ∷ codes "tvmazeid"
          ∷ codes "traktid"
          ∷ codes "imdbid"
          ∷ [])
        (let v = store [] (codes "t") (type_or_search query.type ∷ []) in
          let v = set_text (codes "q") query.q v in
          let v = set_text (codes "ep") query.ep v in
          let v = set_text (codes "season") query.season v in
          let v = set_text (codes "movie") query.movie v in
          let v = set_int (codes "year") query.year v in
          let v = set_text (codes "series") query.series v in
          let v = set_int (codes "offset") query.offset v in set_int (codes "limit") query.limit v)
        (read
          (type_or_search query.type)
          query.q
          query.ep
          query.season
          []
          []
          query.year
          query.offset
          query.limit
          [])
  unfolding set_param param_of single bytes_eq join
  Stage-limit =
      let ty = type_or_search query.type in
      let s =
        Stage-store {r' = read ty [] [] [] [] [] (pos 0) (pos 0) (pos 0) []} (codes "t") (ty ∷ [])
          refl refl Stage-start in
      let s =
        Stage-set_text (codes "q") query.q (λ x. read ty x [] [] [] [] (pos 0) (pos 0) (pos 0) [])
          refl (λ _. refl) s in
      let s =
        Stage-set_text (codes "ep") query.ep
          (λ x. read ty query.q x [] [] [] (pos 0) (pos 0) (pos 0) []) refl
          (λ h.
            let (z, e) = number-IsNumeric (codes "ep") query.ep p.ep h in
            set_ep query.ep z (read ty query.q [] [] [] [] (pos 0) (pos 0) (pos 0) []) e)
          s in
      let s =
        Stage-set_text (codes "season") query.season
          (λ x. read ty query.q query.ep x [] [] (pos 0) (pos 0) (pos 0) []) refl
          (λ h.
            let (z, e) = number-IsNumeric (codes "season") query.season p.season h in
            set_season query.season z (read ty query.q query.ep [] [] [] (pos 0) (pos 0) (pos 0) [])
              e)
          s in
      let s =
        Stage-set_text (codes "movie") query.movie
          (λ x. read ty query.q query.ep query.season [] [] (pos 0) (pos 0) (pos 0) []) refl
          (λ _. refl) s in
      let s =
        Stage-set_int (codes "year") query.year
          (λ x. read ty query.q query.ep query.season [] [] x (pos 0) (pos 0) []) refl
          (set_year query.year
            (read ty query.q query.ep query.season [] [] (pos 0) (pos 0) (pos 0) []) p.year)
          s in
      let s =
        Stage-set_text (codes "series") query.series
          (λ x. read ty query.q query.ep query.season [] [] query.year (pos 0) (pos 0) []) refl
          (λ _. refl) s in
      let s =
        Stage-set_int (codes "offset") query.offset
          (λ x. read ty query.q query.ep query.season [] [] query.year x (pos 0) []) refl
          (set_offset query.offset
            (read ty query.q query.ep query.season [] [] query.year (pos 0) (pos 0) []) p.offset)
          s in
      Stage-set_int (codes "limit") query.limit
        (λ x. read ty query.q query.ep query.season [] [] query.year query.offset x []) refl
        (set_limit query.limit
          (read ty query.q query.ep query.season [] [] query.year query.offset (pos 0) []) p.limit)
        s

  Stage-to_values : Stage [] (to_values query) (kept query)
  unfolding set_param param_of single bytes_eq to_values
  Stage-to_values =
      let ty = type_or_search query.type in
      let f : Bytes → Bytes → List ℤ → Query = λ (a i : Bytes) (cs : List ℤ).
        read ty query.q query.ep query.season a i query.year query.offset query.limit cs in
      let s = Stage-set_flag (codes "extended") query.extended refl refl Stage-limit in
      let s = Stage-set_text (codes "apikey") query.api_key (λ x. f x [] []) refl (λ _. refl) s in
      let s =
        Stage-set_cats query.categories (λ cs. f query.api_key [] cs) refl
          (λ z zs i. set_cat z zs (f query.api_key [] []) i) p.categories s in
      let s =
        Stage-set_text (codes "tvdbid") query.tvdb_id (λ x. f query.api_key [] query.categories)
          refl (λ _. refl) s in
      let s =
        Stage-set_text (codes "rid") query.tv_rage_id (λ x. f query.api_key [] query.categories)
          refl (λ _. refl) s in
      let s =
        Stage-set_text (codes "tvmazeid") query.tv_maze_id
          (λ x. f query.api_key [] query.categories) refl (λ _. refl) s in
      let s =
        Stage-set_text (codes "traktid") query.trakt_id (λ x. f query.api_key [] query.categories)
          refl (λ _. refl) s in
      Stage-set_imdb query.imdb_id (λ i. f query.api_key i query.categories) refl
        (λ val. set_imdbid val (f query.api_key [] query.categories)) p.imdb_id s

-- The values that ToValues writes for a query are read as the same query, without the fields that
-- ParseQuery does not read, and with the type "search" for none. Its numbers are in the range of an int,
-- `ep` and `season` are empty or numbers, and the IMDB id is empty or begins with "tt", once.
pub parse_query-to_values :
    (query : Query) → IsPrintable query → parse_query (to_values query) ≡ ok (kept query)
parse_query-to_values query p = (Stage-to_values query p).parsed
