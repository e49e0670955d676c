-- ===== src/Stores/Names.antt =====
-- The codes and names of the stores in store/store.go. A code or a name that is not known has the empty text.
use resolver_addon.Prelude.{[], ◌∷◌}
use resolver_addon.Prelude.Affix.{or_else}
use resolver_addon.Prelude.Assoc.{Assoc, find}
use resolver_addon.Prelude.Bytes.{Bytes, codes}

-- storeNameByCode
abbrev pub store_name_by_code : Assoc Bytes
store_name_by_code =
    (codes "ad", codes "alldebrid")
    ∷ (codes "dr", codes "debrider")
    ∷ (codes "dl", codes "debridlink")
    ∷ (codes "ed", codes "easydebrid")
    ∷ (codes "oc", codes "offcloud")
    ∷ (codes "pp", codes "pikpak")
    ∷ (codes "pm", codes "premiumize")
    ∷ (codes "rd", codes "realdebrid")
    ∷ (codes "tb", codes "torbox")
    ∷ []

-- StoreCode.Name
unfoldable pub name_of_code : Bytes → Bytes
unfolding find
name_of_code code = or_else (find store_name_by_code code) []
