-- ===== src/StoreId/RoundTrip.antt =====
-- The ids of internal/stremio/store/id.go are read back as they are made.
use resolver_addon.Prelude.{
  ◌≡◌, refl, ap, ◌∙◌, ℕ, suc, true, false, List, [], ◌∷◌, ◌++◌, Option, none, some, arith,
  append_assoc, All-append, ◌≢◌,
}
use resolver_addon.Prelude.Affix.{cut, cut_prefix, contains, cut-append}
use resolver_addon.Prelude.Bytes.{Bytes, Lacks, codes, bytes_eq, split, split-Lacks, split-append}
use resolver_addon.Stores.Names.{name_of_code}
use resolver_addon.StoreId.{
  ParsedId, empty_parsed_id, get_id_prefix, code_of, get_store_code, split_n, from_dashed,
  known_or_none, from_code, with_name, from_parts, parse_id, before,
}

split_n-append :
    (sep n : ℕ) (a b : Bytes)
    → Lacks sep a
    → split_n (suc (suc n)) (a ++ sep ∷ b) sep ≡ a ∷ split_n (suc n) b sep
unfolding split_n
split_n-append sep n a b h =
    let parts : Option (Bytes × Bytes) → List Bytes =
      λ o. elim o [ none ↦ (a ++ sep ∷ b) ∷ [] | some r ↦ r.0 ∷ split_n (suc n) r.1 sep ] in
    ap parts (cut-append sep a b h)

-- The parts of an id behind its first two.
parts_of_id :
    (code rest : Bytes)
    → Lacks b':' code
    → split_n 5 (get_id_prefix code ++ rest) b':'
      ≡ codes "st" ∷ codes "store" ∷ code ∷ split_n 2 rest b':'
parts_of_id code rest h =
    ap (λ s. split_n 5 (codes "st:store:" ++ s) b':') (append_assoc code (b':' ∷ []) rest)
    ∙ split_n-append b':' 3 (codes "st") _ (ground arith, (ground arith, tt))
    ∙ ap (λ l. codes "st" ∷ l)
        (split_n-append b':' 2 (codes "store") (code ++ b':' ∷ rest)
          (ground arith, (ground arith, (ground arith, (ground arith, (ground arith, tt))))))
    ∙ ap (λ l. codes "st" ∷ codes "store" ∷ l) (split_n-append b':' 1 code rest h)

contains-Lacks : (s : Bytes) → Lacks b'-' s → contains s (codes "-") ≡ false
unfolding contains cut_prefix
contains-Lacks [] h = refl
contains-Lacks (c ∷ s) (hc, h) = ground (arith, hc, contains-Lacks s h)

contains_dash : (a b : Bytes) → contains (a ++ b'-' ∷ b) (codes "-") ≡ true
unfolding contains cut_prefix
contains_dash [] b = refl
contains_dash (c ∷ a) b = ground (arith, contains_dash a b)

-- What stands behind the code of a store.
pub data Suffix : Type 0 where
  no_suffix usenet webdl : Suffix

abbrev pub mark : Suffix → ParsedId → ParsedId
mark no_suffix idr = idr
mark usenet idr = record idr { is_usenet = true }
mark webdl idr = record idr { is_web_dl = true }

-- Parsed ids, and the texts behind their prefix, that are read back.
pub data IsParsed : ParsedId → Bytes → Type 0 where
  plain :
      (k : Suffix) (c rest : Bytes)
      → Lacks b'-' c
      → Lacks b':' c
      → bytes_eq c (codes "st") ≡ false
      → IsParsed (with_name (mark k (record empty_parsed_id { store_code = c }))) rest
  st :
      (k : Suffix) (x : ℕ) (c rest : Bytes)
      → Lacks b'-' (x ∷ c)
      → Lacks b':' (x ∷ c)
      → IsParsed
          (with_name (mark k (record empty_parsed_id { is_st = true; store_code = x ∷ c })))
          rest
  st_with_code :
      (x : ℕ) (c rest : Bytes)
      → Lacks b':' (x ∷ c)
      → bytes_eq (name_of_code (x ∷ c)) [] ≡ false
      → IsParsed
          (with_name
            record empty_parsed_id { is_st = true; is_deprecated = true; store_code = x ∷ c })
          rest
  st_alone :
      (rest : Bytes)
      → bytes_eq (name_of_code (before (cut rest b':') rest)) [] ≡ true
      → IsParsed (with_name record empty_parsed_id { is_st = true; is_deprecated = true }) rest

-- A code that is read as a part of its own.
from_third :
    (code rest : Bytes) (idr : ParsedId)
    → Lacks b':' code
    → from_code code (split_n 2 rest b':') ≡ idr
    → parse_id (get_id_prefix code ++ rest) ≡ some (with_name idr)
unfolding parse_id
from_third code rest idr h e =
    ap from_parts (parts_of_id code rest h) ∙ ap (λ r. some (with_name r)) e

split_at_dash : (a b : Bytes) → Lacks b'-' a → split (a ++ b'-' ∷ b) b'-' ≡ a ∷ split b b'-'
split_at_dash a b h = split-append b'-' a b ∙ ap (λ l. l ++ split b b'-') (split-Lacks b'-' a h)

-- A code with a '-' is read by its parts.
from_dash :
    (a b : Bytes) (parts : List Bytes)
    → Lacks b'-' a
    → from_code (a ++ b'-' ∷ b) parts ≡ from_dashed (a ∷ split b b'-')
from_dash a b parts h = rw (contains_dash a b) (ap from_dashed (split_at_dash a b h))

add-Lacks : (sep : ℕ) (a b : Bytes) → Lacks sep a → Lacks sep b → Lacks sep (a ++ b)
add-Lacks sep a b h k = All-append (λ c. c ≢ sep) a b h k

usenet-Lacks : Lacks b':' (codes "-usenet")
usenet-Lacks = (
  omega arith,
  (omega arith, (omega arith, (omega arith, (omega arith, (omega arith, (omega arith, tt)))))),
)

webdl-Lacks : Lacks b':' (codes "-webdl")
webdl-Lacks =
    (omega arith, (omega arith, (omega arith, (omega arith, (omega arith, (omega arith, tt))))))

-- The code of a plain store, with what stands behind it.
plain_code :
    (k : Suffix) (c : Bytes) (parts : List Bytes)
    → Lacks b'-' c
    → bytes_eq c (codes "st") ≡ false
    → from_code (code_of (mark k (record empty_parsed_id { store_code = c }))) parts
      ≡ mark k (record empty_parsed_id { store_code = c })
unfolding bytes_eq split
plain_code no_suffix c parts h e = rw (contains-Lacks c h, e) refl
plain_code usenet c parts h e = from_dash c (codes "usenet") parts h ∙ rw e refl
plain_code webdl c parts h e = from_dash c (codes "webdl") parts h ∙ rw e refl

st-Lacks : Lacks b'-' (codes "st")
st-Lacks = (omega arith, (omega arith, tt))

st_code :
    (k : Suffix) (x : ℕ) (c : Bytes) (parts : List Bytes)
    → Lacks b'-' (x ∷ c)
    → from_code
        (code_of (mark k (record empty_parsed_id { is_st = true; store_code = x ∷ c })))
        parts
      ≡ mark k (record empty_parsed_id { is_st = true; store_code = x ∷ c })
unfolding bytes_eq split
st_code no_suffix x c parts h =
    from_dash (codes "st") (x ∷ c) parts st-Lacks
    ∙ ap (λ l. from_dashed (codes "st" ∷ l)) (split-Lacks b'-' (x ∷ c) h)
st_code usenet x c parts h =
    from_dash (codes "st") ((x ∷ c) ++ codes "-usenet") parts st-Lacks
    ∙ ap (λ l. from_dashed (codes "st" ∷ l)) (split_at_dash (x ∷ c) (codes "usenet") h)
st_code webdl x c parts h =
    from_dash (codes "st") ((x ∷ c) ++ codes "-webdl") parts st-Lacks
    ∙ ap (λ l. from_dashed (codes "st" ∷ l)) (split_at_dash (x ∷ c) (codes "webdl") h)

abbrev deprecated : Bytes → ParsedId
deprecated code = record empty_parsed_id { is_st = true; is_deprecated = true; store_code = code }

st_alone_lem :
    (parts : List Bytes) → from_code (codes "st") parts ≡ deprecated (known_or_none parts)
unfolding bytes_eq contains cut_prefix
st_alone_lem parts = refl

known-cut :
    (rest : Bytes)
    → bytes_eq (name_of_code (before (cut rest b':') rest)) [] ≡ true
    → known_or_none (split_n 2 rest b':') ≡ []
unfolding split_n
known-cut rest h = go (cut rest b':') h
  where
    go :
        (o : Option (Bytes × Bytes))
        → bytes_eq (name_of_code (before o rest)) [] ≡ true
        → known_or_none (elim o [ none ↦ rest ∷ [] | some r ↦ r.0 ∷ split_n 1 r.1 b':' ]) ≡ []
    go none e = rw e refl
    go (some r) e = rw e refl

known_code :
    (code : Bytes) (parts : List Bytes)
    → bytes_eq (name_of_code code) [] ≡ false
    → known_or_none (code ∷ parts) ≡ code
known_code code parts e = rw e refl

st_dash-Lacks : Lacks b':' (codes "st-")
st_dash-Lacks = (omega arith, (omega arith, (omega arith, tt)))

-- parseId reads a parsed id back from the prefix of its code and a text behind it, if the id has the name of
-- its store code, at most one mark of usenet and web downloads, and no code kept yet, and one of these holds.
-- It is not of StremThru, and its store code is not "st" and has no '-' and no ':'. It is of StremThru, and its
-- store code is not empty and has no '-' and no ':'. It is of StremThru and deprecated, without a mark, and
-- its store code is that of a known store, without a ':'. Or it is so without a store code, and the text up
-- to its first ':' is not the code of a known store.
pub parse_id-get_id_prefix :
    (idr : ParsedId) (rest : Bytes)
    → IsParsed idr rest
    → parse_id (get_id_prefix (get_store_code idr).0 ++ rest) ≡ some idr
unfolding get_store_code bytes_eq
parse_id-get_id_prefix _ _ (plain no_suffix c rest hd hc e) =
    from_third c rest _ hc (plain_code no_suffix c (split_n 2 rest b':') hd e)
parse_id-get_id_prefix _ _ (plain usenet c rest hd hc e) =
    from_third (c ++ codes "-usenet") rest _ (add-Lacks b':' c _ hc usenet-Lacks)
      (plain_code usenet c (split_n 2 rest b':') hd e)
parse_id-get_id_prefix _ _ (plain webdl c rest hd hc e) =
    from_third (c ++ codes "-webdl") rest _ (add-Lacks b':' c _ hc webdl-Lacks)
      (plain_code webdl c (split_n 2 rest b':') hd e)
parse_id-get_id_prefix _ _ (st no_suffix x c rest hd hc) =
    from_third (codes "st-" ++ x ∷ c) rest _ (add-Lacks b':' (codes "st-") (x ∷ c) st_dash-Lacks hc)
      (st_code no_suffix x c (split_n 2 rest b':') hd)
parse_id-get_id_prefix _ _ (st usenet x c rest hd hc) =
    from_third (codes "st-" ++ (x ∷ c) ++ codes "-usenet") rest _
      (add-Lacks b':' (codes "st-") ((x ∷ c) ++ codes "-usenet") st_dash-Lacks
        (add-Lacks b':' (x ∷ c) (codes "-usenet") hc usenet-Lacks))
      (st_code usenet x c (split_n 2 rest b':') hd)
parse_id-get_id_prefix _ _ (st webdl x c rest hd hc) =
    from_third (codes "st-" ++ (x ∷ c) ++ codes "-webdl") rest _
      (add-Lacks b':' (codes "st-") ((x ∷ c) ++ codes "-webdl") st_dash-Lacks
        (add-Lacks b':' (x ∷ c) (codes "-webdl") hc webdl-Lacks))
      (st_code webdl x c (split_n 2 rest b':') hd)
parse_id-get_id_prefix _ _ (st_with_code x c rest hc e) =
    ap (λ s. parse_id (codes "st:store:st:" ++ s)) (append_assoc (x ∷ c) (b':' ∷ []) rest)
    ∙ from_third (codes "st") ((x ∷ c) ++ b':' ∷ rest) (deprecated (x ∷ c))
        (omega arith, (omega arith, tt))
        (st_alone_lem _
          ∙ ap (λ l. deprecated (known_or_none l)) (split_n-append b':' 0 (x ∷ c) rest hc)
          ∙ ap deprecated (known_code (x ∷ c) (split_n 1 rest b':') e))
parse_id-get_id_prefix _ _ (st_alone rest e) =
    from_third (codes "st") rest (deprecated []) (omega arith, (omega arith, tt))
      (st_alone_lem _ ∙ ap deprecated (known-cut rest e))
