-- ===== src/StoreId/Examples.antt =====
-- Tests of the ids of a store.
use resolver_addon.Prelude.Affix.{contains, cut_prefix, cut}
use resolver_addon.Prelude.{
  ◌≡◌, refl, Bool, true, false, List, [], ◌∷◌, ◌++◌, Option, none, some, Result, ok, arith,
}
use resolver_addon.Prelude.Bytes.{Bytes, codes, bytes_eq}
use resolver_addon.StoreId.{
  ParsedId, empty_parsed_id, get_id_prefix, get_store_code, with_name, parse_id,
  get_video_id_and_data,
}
use resolver_addon.StoreId.RoundTrip.{IsParsed, Suffix, mark, parse_id-get_id_prefix}

abbrev deprecated_rd : ParsedId
deprecated_rd = record empty_parsed_id {
  is_deprecated = true;
  is_st = true;
  store_code = codes "rd";
  store_name = codes "realdebrid";
}

catalog_test : parse_id (codes "st:store:st:rd:XXX") ≡ some deprecated_rd
unfolding parse_id resolver_addon.Prelude.Affix.cut resolver_addon.Prelude.Affix.contains
    resolver_addon.Prelude.Bytes.bytes_eq resolver_addon.Prelude.Affix.cut_prefix
catalog_test = refl

code_test : (get_store_code deprecated_rd).0 ≡ codes "st:rd"
unfolding get_store_code resolver_addon.Prelude.Bytes.bytes_eq
code_test = refl

abbrev unescaped : Bytes → Result Bytes Bytes
unescaped s = ok s

abbrev no_scheme : Bytes → Bool
no_scheme s = false

video_test :
    get_video_id_and_data unescaped no_scheme
      (codes "st:store:pm:premiumize:cached:magnet:abc:x.mkv")
      (record empty_parsed_id { store_code = codes "pm" })
    ≡ ok record { id = codes "premiumize:cached:magnet:abc"; link = []; name = codes "x.mkv" }
unfolding get_video_id_and_data resolver_addon.Prelude.Bytes.bytes_eq
    resolver_addon.Prelude.Affix.cut_prefix resolver_addon.Prelude.Affix.cut
video_test = refl

abbrev usenet_id : ParsedId
usenet_id =
    with_name
      (mark Suffix.usenet (record empty_parsed_id { is_st = true; store_code = codes "tb" }))

parse_id-get_id_prefix_example :
    parse_id (get_id_prefix (get_store_code usenet_id).0 ++ codes "abc:def") ≡ some usenet_id
parse_id-get_id_prefix_example = parse_id-get_id_prefix usenet_id (codes "abc:def") (
    IsParsed.st Suffix.usenet b't' (codes "b") (codes "abc:def") (omega arith, (omega arith, tt))
      (omega arith, (omega arith, tt)))
