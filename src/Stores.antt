-- ===== src/Stores.antt =====
-- `CheckMagnet` of internal/stremio/userdata/stores.go: which of the user's stores has which hash. The first
-- store is asked alone, and the others at once for what it does not have, each in a goroutine that writes
-- its answer under a lock: `order` is the order in which they do. A store is a parameter: its code and what
-- it answers.
pub mod Names
pub mod Found
pub mod Merged
pub mod Examples
use resolver_addon.Prelude.{
  ℕ, ◌+◌, ◌-◌, ◌≤◌, Bool, true, false, not, ◌&&◌, ◌||◌, List, [], ◌∷◌, ◌++◌, Option, none, some,
  if◌then◌else◌, leb, map, set, replicate, length,
}
use resolver_addon.Prelude.Bytes.{Bytes, codes, bytes_eq}
use resolver_addon.Prelude.Affix.{is_some}
use resolver_addon.Prelude.Assoc.{Assoc, find, store}

-- The fields that CheckMagnet reads.
pub record CheckMagnetDataItem : Type 0 where
  pub hash : Bytes
  pub status : Bytes

-- The fields that CheckMagnet sets; the others keep their zero value.
pub record CheckMagnetParams : Type 0 where
  pub api_key : Bytes
  pub magnets : List Bytes
  pub client_ip : Bytes
  pub sid : Bytes

-- MagnetStatusCached
abbrev pub is_cached : CheckMagnetDataItem → Bool
is_cached item = bytes_eq item.status (codes "cached")

-- strings.ToUpper of ASCII text
abbrev upper : ℕ → ℕ
upper c = if leb 97 c && leb c 122 then c - 32 else c

abbrev pub to_upper : Bytes → Bytes
to_upper s = map upper s

abbrev pub is_nil : List Bytes → Bool
is_nil [] = true
is_nil (h ∷ hashes) = false

-- The loop over the items of the first store; `more` says that there are other stores.
unfoldable pub first_items :
    Bool → Bytes → List CheckMagnetDataItem → Assoc Bytes → List Bytes → Assoc Bytes × List Bytes
first_items more code [] by_hash missing = (by_hash, missing)
first_items more code (item ∷ items) by_hash missing =
    let cached = first_items more code items (store by_hash item.hash code) missing in
    let asked = first_items more code items by_hash (missing ++ item.hash ∷ []) in
    let passed = first_items more code items by_hash missing in
    if is_cached item then cached else if more then asked else passed

-- The loop over the items of another store: who came first stays.
abbrev pub merge_item : Bytes → CheckMagnetDataItem → Assoc Bytes → Assoc Bytes
merge_item code item by_hash =
    if not (is_some (find by_hash item.hash)) && is_cached item
    then store by_hash item.hash code
    else by_hash

unfoldable pub merge_items : Bytes → List CheckMagnetDataItem → Assoc Bytes → Assoc Bytes
merge_items code [] by_hash = by_hash
merge_items code (item ∷ items) by_hash = merge_items code items (merge_item code item by_hash)

abbrev pub with_magnets : CheckMagnetParams → List Bytes → Bytes → CheckMagnetParams
with_magnets params magnets token = record params { api_key = token; magnets = magnets }

module _ (E : Type 0) where
  -- What a store answers.
  pub data Checked : Type 0 where
    failed : E → Checked
    items : List CheckMagnetDataItem → Checked

  pub data StoreError : Type 0 where
    no_configured_store invalid_store : StoreError
    failed_to_check : E → StoreError

  pub record Store : Type 0 where
    pub code : Bytes
    pub check : CheckMagnetParams → Checked

  -- A store that is none is nil.
  pub record ResolvedStore : Type 0 where
    pub store : Option Store
    pub auth_token : Bytes

  -- storesCheckMagnetData
  pub record CheckMagnetData : Type 0 where
    pub by_hash : Assoc Bytes
    pub err : List (Option StoreError)
    pub has_err : Bool
    pub has_err_by_store_code : Assoc {0} Unit

module _ {E : Type 0} where
  abbrev pub with_failure : ℕ → Bytes → E → CheckMagnetData E → CheckMagnetData E
  with_failure idx code e res = record res {
    err = set res.err idx (some (failed_to_check e));
    has_err = true;
    has_err_by_store_code = store res.has_err_by_store_code code tt;
  }

  -- The answer of the first store, and the hashes that are missing.
  abbrev pub first_answer :
      Bool → Bytes → List Bytes → Checked E → CheckMagnetData E → CheckMagnetData E × List Bytes
  first_answer more code magnets (failed e) res =
      (with_failure 0 code e res, if more then magnets else [])
  first_answer more code magnets (items list) res =
      let r = first_items more code list res.by_hash [] in (record res { by_hash = r.0 }, r.1)

  -- The answer of another store.
  abbrev pub merge_answer : ℕ → Bytes → Checked E → CheckMagnetData E → CheckMagnetData E
  merge_answer idx code (failed e) res = with_failure idx code e res
  merge_answer idx code (items list) res = record res {
    by_hash = merge_items code list res.by_hash;
  }

  -- One goroutine
  abbrev pub check_store :
      CheckMagnetParams
      → List Bytes
      → ℕ
      → Bytes
      → Option (Store E)
      → CheckMagnetData E
      → CheckMagnetData E
  check_store params missing idx token none res = record res {
    err = set res.err idx (some invalid_store);
    has_err = true;
  }
  check_store params missing idx token (some s) res =
      merge_answer idx (to_upper s.code) (s.check (with_magnets params missing token)) res

  unfoldable pub check_others :
      CheckMagnetParams
      → List Bytes
      → List (ℕ × ResolvedStore E)
      → CheckMagnetData E
      → CheckMagnetData E
  unfolding merge_items
  check_others params missing [] res = res
  check_others params missing (other ∷ order) res =
      check_others params missing order
        (check_store params missing other.0 (other.1).auth_token (other.1).store res)

  -- The stores with their indices.
  unfoldable pub numbered : ℕ → List (ResolvedStore E) → List (ℕ × ResolvedStore E)
  numbered i [] = []
  numbered i (s ∷ stores) = (i, s) ∷ numbered (i + 1) stores

  abbrev pub new_data : ℕ → CheckMagnetData E
  new_data count = record {
    by_hash = [];
    err = replicate count none;
    has_err = false;
    has_err_by_store_code = [];
  }

  -- What is left to do behind the first store.
  abbrev pub and_others :
      CheckMagnetParams
      → List (ℕ × ResolvedStore E)
      → Bool
      → CheckMagnetData E × List Bytes
      → CheckMagnetData E
  and_others params order more r =
      if not more || is_nil r.1 then r.0 else check_others params r.1 order r.0

  -- A first store that is nil is called all the same, and the call panics.
  abbrev pub check_first :
      List (ℕ × ResolvedStore E)
      → CheckMagnetParams
      → Bool
      → ℕ
      → Bytes
      → Option (Store E)
      → Option (CheckMagnetData E)
  check_first order params more count token none = none
  check_first order params more count token (some s) = some (
      and_others params order more (
        first_answer more (to_upper s.code) params.magnets
          (s.check (with_magnets params params.magnets token)) (new_data count)))

  unfoldable pub check_magnet :
      List (ℕ × ResolvedStore E)
      → List (ResolvedStore E)
      → CheckMagnetParams
      → Option (CheckMagnetData E)
  unfolding first_items check_others
  check_magnet order [] params = some record {
    by_hash = [];
    err = some no_configured_store ∷ [];
    has_err = true;
    has_err_by_store_code = [];
  }
  check_magnet order (first ∷ rest) params =
      let count = length (first ∷ rest) in
      check_first order params (leb 2 count) count first.auth_token first.store
