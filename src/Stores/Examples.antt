-- ===== src/Stores/Examples.antt =====
-- Tests of the search for magnets in the stores.
use mathlib.Core.List.{Perm}
use mathlib.Core.List.Perm
use resolver_addon.Prelude.{
  ◌≡◌, refl, ℕ, Bool, true, false, List, [], ◌∷◌, Option, none, some, if◌then◌else◌,
}
use resolver_addon.Prelude.Bytes.{Bytes, codes, bytes_eq}
use resolver_addon.Prelude.Assoc.{Assoc, find}
use resolver_addon.Stores.{
  CheckMagnetDataItem, CheckMagnetParams, Checked, Store, ResolvedStore, CheckMagnetData, numbered,
  check_magnet,
}
use resolver_addon.Stores.Merged.{IsRight, check_magnet-IsRight}

abbrev item_of : Bytes → Bytes → CheckMagnetDataItem
item_of hash status = record { hash = hash; status = status }

-- A store that has one hash cached and says so of each hash that it is asked for.
abbrev answers : Bytes → List Bytes → List CheckMagnetDataItem
answers cached [] = []
answers cached (h ∷ hashes) =
    item_of h (if bytes_eq h cached then codes "cached" else codes "unknown")
    ∷ answers cached hashes

abbrev store_of : Bytes → Bytes → Store Bytes
store_of code cached = record {
  code = code;
  check = λ params. Checked.items (answers cached params.magnets);
}

abbrev resolved : Store Bytes → ResolvedStore Bytes
resolved s = record { store = some s; auth_token = codes "key" }

abbrev rd : Store Bytes
rd = store_of (codes "rd") (codes "a")

abbrev ad : ResolvedStore Bytes
ad = resolved (store_of (codes "ad") (codes "b"))

abbrev tb : ResolvedStore Bytes
tb = resolved (store_of (codes "tb") (codes "b"))

abbrev three_hashes : CheckMagnetParams
three_hashes = record {
  api_key = [];
  magnets = codes "a" ∷ codes "b" ∷ codes "c" ∷ [];
  client_ip = [];
  sid = [];
}

abbrev ad_first : List (ℕ × ResolvedStore Bytes)
ad_first = (1, ad) ∷ (2, tb) ∷ []

abbrev tb_first : List (ℕ × ResolvedStore Bytes)
tb_first = (2, tb) ∷ (1, ad) ∷ []

abbrev hashes_of : Option (CheckMagnetData Bytes) → Assoc Bytes
hashes_of none = []
hashes_of (some res) = res.by_hash

abbrev ask : List (ℕ × ResolvedStore Bytes) → Option (CheckMagnetData Bytes)
ask order = check_magnet order (resolved rd ∷ ad ∷ tb ∷ []) three_hashes

in_turn : hashes_of (ask ad_first) ≡ (codes "a", codes "RD") ∷ (codes "b", codes "AD") ∷ []
unfolding check_magnet resolver_addon.Prelude.Bytes.bytes_eq resolver_addon.Prelude.Assoc.find
    resolver_addon.Prelude.Assoc.store
in_turn = refl

turned : hashes_of (ask tb_first) ≡ (codes "a", codes "RD") ∷ (codes "b", codes "TB") ∷ []
unfolding check_magnet resolver_addon.Prelude.Bytes.bytes_eq resolver_addon.Prelude.Assoc.find
    resolver_addon.Prelude.Assoc.store
turned = refl

-- Without a store there is an error, and a first store that is nil makes the call panic.
no_first : check_magnet [] (record { store = none; auth_token = [] } ∷ ad ∷ []) three_hashes ≡ none
unfolding check_magnet
no_first = refl

turned_Perm : Perm tb_first (numbered 1 (ad ∷ tb ∷ []))
unfolding numbered
turned_Perm = Perm.swap _ _ _

check_magnet-IsRight_example :
    IsRight three_hashes rd (codes "key") (ad ∷ tb ∷ []) (codes "b") (ask tb_first)
check_magnet-IsRight_example =
    check_magnet-IsRight tb_first rd (codes "key") (ad ∷ tb ∷ []) three_hashes (codes "b")
      turned_Perm
