-- ===== src/Torznab/Query.antt =====
-- The search query of internal/torznab/query.go and its print as url values.
use resolver_addon.Prelude.{Bool, true, false, not, ◌&&◌, List, [], ◌∷◌, map, if◌then◌else◌}
use resolver_addon.Prelude.Affix.{trim_prefix}
use resolver_addon.Prelude.Assoc.{Assoc, store}
use resolver_addon.Prelude.Bytes.{Bytes, codes, join, bytes_eq}
use resolver_addon.Prelude.Decimal.{itoa}
use resolver_addon.Prelude.Int.{ℤ, pos, ltb_ℤ, eqb_ℤ}

pub record Query : Type 0 where
  pub type : Bytes
  pub q : Bytes
  pub series : Bytes
  pub movie : Bytes
  pub ep : Bytes
  pub season : Bytes
  pub year : ℤ
  pub limit : ℤ
  pub offset : ℤ
  pub extended : Bool
  pub categories : List ℤ
  pub api_key : Bytes
  pub tvdb_id : Bytes
  pub tv_rage_id : Bytes
  pub imdb_id : Bytes
  pub tv_maze_id : Bytes
  pub trakt_id : Bytes

-- low <= cat && cat < high, for one of the categories
unfoldable pub has_in_range : ℤ → ℤ → List ℤ → Bool
has_in_range low high [] = false
has_in_range low high (cat ∷ cats) =
    let rest = has_in_range low high cats in
    if not (ltb_ℤ cat low) && ltb_ℤ cat high then true else rest

abbrev pub has_tv_shows : Query → Bool
has_tv_shows query = has_in_range (pos 5000) (pos 6000) query.categories

abbrev pub has_movies : Query → Bool
has_movies query = has_in_range (pos 2000) (pos 3000) query.categories

-- url.Values
abbrev pub Values : Type 0
Values = Assoc (List Bytes)

-- if value != "" { v.Set(key, value) }
unfoldable pub set_text : Bytes → Bytes → Values → Values
set_text key value v = if bytes_eq value [] then v else store v key (value ∷ [])

-- if value != 0 { v.Set(key, strconv.Itoa(value)) }
unfoldable pub set_int : Bytes → ℤ → Values → Values
set_int key value v = if eqb_ℤ value (pos 0) then v else store v key (itoa value ∷ [])

-- if value { v.Set(key, "1") }
unfoldable pub set_flag : Bytes → Bool → Values → Values
set_flag key value v = if value then store v key (codes "1" ∷ []) else v

-- if len(query.Categories) > 0 { ... }
unfoldable pub set_cats : List ℤ → Values → Values
set_cats [] v = v
set_cats (cat ∷ cats) v = store v (codes "cat") (join (map itoa (cat ∷ cats)) b',' ∷ [])

-- if query.IMDBId != "" { ... }
unfoldable pub set_imdb : Bytes → Values → Values
set_imdb id v =
    if bytes_eq id [] then v else store v (codes "imdbid") (trim_prefix id (codes "tt") ∷ [])

abbrev pub type_or_search : Bytes → Bytes
type_or_search type = if bytes_eq type [] then codes "search" else type

unfoldable pub to_values : Query → Values
unfolding store set_text set_int set_flag set_cats set_imdb
to_values query =
    let v = store [] (codes "t") (type_or_search query.type ∷ []) in
    let v = set_text (codes "q") query.q v in
    let v = set_text (codes "ep") query.ep v in
    let v = set_text (codes "season") query.season v in
    let v = set_text (codes "movie") query.movie v in
    let v = set_int (codes "year") query.year v in
    let v = set_text (codes "series") query.series v in
    let v = set_int (codes "offset") query.offset v in
    let v = set_int (codes "limit") query.limit v in
    let v = set_flag (codes "extended") query.extended v in
    let v = set_text (codes "apikey") query.api_key v in
    let v = set_cats query.categories v in
    let v = set_text (codes "tvdbid") query.tvdb_id v in
    let v = set_text (codes "rid") query.tv_rage_id v in
    let v = set_text (codes "tvmazeid") query.tv_maze_id v in
    let v = set_text (codes "traktid") query.trakt_id v in set_imdb query.imdb_id v
