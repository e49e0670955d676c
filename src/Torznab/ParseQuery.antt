-- ===== src/Torznab/ParseQuery.antt =====
-- ParseQuery of internal/torznab/query.go: the query that url values hold, or what is wrong with them. The
-- query that stands beside an error is not kept, and an error is its kind and the key.
use resolver_addon.Prelude.{
  false, List, [], ◌∷◌, ◌++◌, Option, none, some, Result, ok, err, ◌>>=◌, if◌then◌else◌,
}
use resolver_addon.Prelude.Affix.{has_prefix, to_lower}
use resolver_addon.Prelude.Bytes.{Bytes, codes, split, join, bytes_eq}
use resolver_addon.Prelude.Decimal.{atoi}
use resolver_addon.Prelude.Int.{ℤ, pos}
use resolver_addon.Torznab.Query.{Query, Values}

pub data QueryError : Type 0 where
  multiple : Bytes → QueryError
  invalid : Bytes → QueryError
  -- vals[0] of no values: a panic
  no_value : QueryError

-- Query{}
abbrev pub empty_query : Query
empty_query = record {
  type = [];
  q = [];
  series = [];
  movie = [];
  ep = [];
  season = [];
  year = pos 0;
  limit = pos 0;
  offset = pos 0;
  extended = false;
  categories = [];
  api_key = [];
  tvdb_id = [];
  tv_rage_id = [];
  imdb_id = [];
  tv_maze_id = [];
  trakt_id = [];
}

-- strings.Join(vals, " ")
abbrev pub join_values : List Bytes → Bytes
join_values vals = join vals b' '

-- The guard on several values, then vals[0].
unfoldable pub single : Bytes → List Bytes → Result QueryError Bytes
single key [] = err no_value
single key (val ∷ []) = ok val
single key (val ∷ other ∷ vals) = err (multiple key)

abbrev pub number_of : Bytes → Option ℤ → Result QueryError ℤ
number_of key none = err (invalid key)
number_of key (some z) = ok z

-- strconv.Atoi(val), with the error of the key.
unfoldable pub number : Bytes → Bytes → Result QueryError ℤ
number key val = number_of key (atoi val)

-- splitInts
unfoldable pub ints_of : Bytes → List Bytes → Result QueryError (List ℤ)
unfolding number
ints_of key [] = ok []
ints_of key (v ∷ vs) = do z ← number key v; zs ← ints_of key vs; ok (z ∷ zs)

abbrev pub split_ints : Bytes → Result QueryError (List ℤ)
split_ints s = ints_of (codes "cat") (split s b',')

-- The loop over the values of "cat".
unfoldable pub all_cats : List ℤ → List Bytes → Result QueryError (List ℤ)
all_cats cats [] = ok cats
all_cats cats (val ∷ vals) = do ints ← split_ints val; all_cats (cats ++ ints) vals

abbrev pub with_tt : Bytes → Bytes
with_tt id = if has_prefix id (codes "tt") then id else codes "tt" ++ id

-- The cases of the switch.
pub data Param : Type 0 where
  t q year ep season apikey limit offset cat imdbid other : Param

unfoldable pub param_of : Bytes → Param
unfolding bytes_eq
param_of key =
    if bytes_eq key (codes "t")
    then t
    else if bytes_eq key (codes "q")
    then q
    else if bytes_eq key (codes "year")
    then year
    else if bytes_eq key (codes "ep")
    then ep
    else if bytes_eq key (codes "season")
    then season
    else if bytes_eq key (codes "apikey")
    then apikey
    else if bytes_eq key (codes "limit")
    then limit
    else if bytes_eq key (codes "offset")
    then offset
    else if bytes_eq key (codes "cat")
    then cat
    else if bytes_eq key (codes "imdbid")
    then imdbid
    else other

-- One case of the switch.
unfoldable pub set_param : Param → List Bytes → Query → Result QueryError Query
set_param t vals query = do val ← single (codes "t") vals; ok (record query { type = val })
set_param q vals query = ok (record query { q = join_values vals })
set_param year vals query = do
  val ← single (codes "year") vals
  z ← number (codes "year") val
  ok (record query { year = z })
set_param ep vals query = do
  val ← single (codes "ep") vals
  z ← number (codes "ep") val
  ok (record query { ep = val })
set_param season vals query = do
  val ← single (codes "season") vals
  z ← number (codes "season") val
  ok (record query { season = val })
set_param apikey vals query = do
  val ← single (codes "apikey") vals
  ok (record query { api_key = val })
set_param limit vals query = do
  val ← single (codes "limit") vals
  z ← number (codes "limit") val
  ok (record query { limit = z })
set_param offset vals query = do
  val ← single (codes "offset") vals
  z ← number (codes "offset") val
  ok (record query { offset = z })
set_param cat vals query = do cats ← all_cats [] vals; ok (record query { categories = cats })
set_param imdbid vals query = do
  val ← single (codes "imdbid") vals
  ok (record query { imdb_id = with_tt val })
set_param other vals query = ok query

-- One round of the loop.
abbrev pub set_entry : Bytes × List Bytes → Query → Result QueryError Query
set_entry e query = set_param (param_of (to_lower e.0)) e.1 query

unfoldable pub parse_from : Values → Query → Result QueryError Query
unfolding set_param param_of
parse_from [] query = ok query
parse_from (e ∷ v) query = do query' ← set_entry e query; parse_from v query'

abbrev pub parse_query : Values → Result QueryError Query
parse_query v = parse_from v empty_query
