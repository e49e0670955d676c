-- ===== src/StoreId.antt =====
-- internal/stremio/store/id.go: the ids of the catalogs, metas and videos of a store.
pub mod RoundTrip
pub mod Examples
use resolver_addon.Prelude.{
  ℕ, zero, suc, Bool, true, false, not, ◌&&◌, ◌||◌, List, [], ◌∷◌, ◌++◌, Option, none, some,
  if◌then◌else◌, Result, ok, err,
}
use resolver_addon.Prelude.Affix.{cut, cut_prefix, has_prefix, trim_prefix, contains, is_some}
use resolver_addon.Prelude.Bytes.{Bytes, codes, bytes_eq, split}
use resolver_addon.Stores.Names.{name_of_code}

abbrev pub is_store_id : Bytes → Bool
is_store_id id = has_prefix id (codes "st:store:")

abbrev pub get_catalog_id : Bytes → Bytes
get_catalog_id code = codes "st:store:" ++ code

abbrev pub get_id_prefix : Bytes → Bytes
get_id_prefix code = get_catalog_id code ++ b':' ∷ []

abbrev pub get_store_action_id : Bytes → Bytes
get_store_action_id code = get_id_prefix code ++ codes "action"

abbrev pub get_store_action_id_prefix : Bytes → Bytes
get_store_action_id_prefix code = get_store_action_id code ++ b':' ∷ []

abbrev pub get_web_dls_meta_id : Bytes → Bytes
get_web_dls_meta_id code = get_id_prefix code ++ codes "webdls"

abbrev pub get_web_dls_meta_id_prefix : Bytes → Bytes
get_web_dls_meta_id_prefix code = get_web_dls_meta_id code ++ b':' ∷ []

pub record ParsedId : Type 0 where
  pub store_code : Bytes
  pub store_name : Bytes
  pub is_usenet : Bool
  pub is_web_dl : Bool
  pub is_deprecated : Bool
  pub is_st : Bool
  pub code : Bytes

abbrev pub empty_parsed_id : ParsedId
empty_parsed_id = record {
  store_code = [];
  store_name = [];
  is_usenet = false;
  is_web_dl = false;
  is_deprecated = false;
  is_st = false;
  code = [];
}

abbrev pub with_kind : ParsedId → Bytes → Bytes
with_kind idr code =
    if idr.is_usenet
    then code ++ codes "-usenet"
    else if idr.is_web_dl
    then code ++ codes "-webdl"
    else code

abbrev pub code_of : ParsedId → Bytes
code_of idr =
    if idr.is_st
    then (if bytes_eq idr.store_code []
        then codes "st"
        else if idr.is_deprecated
        then codes "st:" ++ idr.store_code
        else with_kind idr (codes "st-" ++ idr.store_code))
    else with_kind idr idr.store_code

-- getStoreCode keeps what it finds.
unfoldable pub get_store_code : ParsedId → Bytes × ParsedId
get_store_code idr =
    if bytes_eq idr.code []
    then (code_of idr, record idr { code = code_of idr })
    else (idr.code, idr)

-- strings.SplitN(s, sep, n)
unfoldable pub split_n : ℕ → Bytes → ℕ → List Bytes
split_n zero s sep = []
split_n (suc zero) s sep = s ∷ []
split_n (suc (suc n)) s sep = elim (cut s sep) [
  | none ↦ s ∷ []
  | some r ↦ r.0 ∷ split_n (suc n) r.1 sep
]

abbrev pub kind : List Bytes → ParsedId → ParsedId
kind [] idr = idr
kind (k ∷ parts) idr =
    if bytes_eq k (codes "usenet")
    then record idr { is_usenet = true }
    else if bytes_eq k (codes "webdl")
    then record idr { is_web_dl = true }
    else idr

-- A code with a '-': its parts.
abbrev pub from_dashed : List Bytes → ParsedId
from_dashed [] = empty_parsed_id
from_dashed (a ∷ []) = record empty_parsed_id { store_code = a }
from_dashed (a ∷ b ∷ parts) =
    if bytes_eq a (codes "st")
    then kind parts (record empty_parsed_id { is_st = true; store_code = b })
    else kind (b ∷ parts) (record empty_parsed_id { store_code = a })

abbrev pub known_or_none : List Bytes → Bytes
known_or_none [] = []
known_or_none (code ∷ parts) = if bytes_eq (name_of_code code) [] then [] else code

abbrev pub from_code : Bytes → List Bytes → ParsedId
from_code code parts =
    if contains code (codes "-")
    then from_dashed (split code b'-')
    else if bytes_eq code (codes "st")
    then record empty_parsed_id {
      is_st = true;
      is_deprecated = true;
      store_code = known_or_none parts;
    }
    else record empty_parsed_id { store_code = code }

abbrev pub with_name : ParsedId → ParsedId
with_name idr = record idr { store_name = name_of_code idr.store_code }

-- none: an invalid id
abbrev pub from_parts : List Bytes → Option ParsedId
from_parts (st ∷ store ∷ code ∷ parts) = some (with_name (from_code code parts))
from_parts (st ∷ store ∷ []) = none
from_parts (st ∷ []) = none
from_parts [] = none

-- parseId
unfoldable pub parse_id : Bytes → Option ParsedId
unfolding split_n name_of_code
parse_id id = from_parts (split_n 5 id b':')

-- The prefix of the cached magnets of premiumize.
abbrev pub cached_magnet_id_prefix : Bytes
cached_magnet_id_prefix = codes "premiumize:cached:magnet:"

pub record VideoId : Type 0 where
  pub id : Bytes
  pub link : Bytes
  pub name : Bytes

abbrev pub before : Option (Bytes × Bytes) → Bytes → Bytes
before none s = s
before (some r) s = r.0

abbrev pub behind : Option (Bytes × Bytes) → Bytes
behind none = []
behind (some r) = r.1

-- url.PathUnescape, and whether url.Parse gives a scheme, are parameters.
module _ {E : Type 0} (path_unescape : Bytes → Result E Bytes) (has_scheme : Bytes → Bool) where
  abbrev pub link_or_name : Bytes → Bytes → VideoId
  link_or_name id link =
      if has_scheme link
      then record { id = id; link = link; name = [] }
      else record { id = id; link = []; name = link }

  abbrev pub with_link : Bytes → Result E Bytes → Result E VideoId
  with_link id (err e) = err e
  with_link id (ok link) = ok (link_or_name id link)

  abbrev pub of_video_id : Bytes → Bytes → Result E VideoId
  of_video_id id_prefix video_id =
      with_link (id_prefix ++ before (cut video_id b':') video_id)
        (path_unescape (behind (cut video_id b':')))

  -- getVideoIdAndData
  unfoldable pub get_video_id_and_data : Bytes → ParsedId → Result E VideoId
  unfolding get_store_code
  get_video_id_and_data id_with_link idr =
      let video_id = trim_prefix id_with_link (get_id_prefix (get_store_code idr).0) in
      if bytes_eq idr.store_code (codes "pm") && has_prefix video_id cached_magnet_id_prefix
      then of_video_id cached_magnet_id_prefix (trim_prefix video_id cached_magnet_id_prefix)
      else of_video_id [] video_id
