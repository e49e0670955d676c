-- ===== src/Anime/ColumnsRead.antt =====
-- The columns of internal/anidb/tvdb_episode_map.db.go are read back as they were written.
use resolver_addon.Prelude.{
  ◌≡◌, refl, ap, sym, ◌∙◌, ◌≢◌, false, List, [], ◌∷◌, ◌++◌, some, map, All, arith, append_assoc,
  append-nil, All-append,
}
use resolver_addon.Prelude.Affix.{cut, cut-append}
use resolver_addon.Prelude.Bytes.{Bytes, Lacks, split, join, split-Lacks, split-append, split-join}
use resolver_addon.Prelude.Decimal.{
  itoa, atoi, IsInt, atoi-itoa, itoa-Lacks, itoa-Lacks_below, itoa-Lacks_dash,
}
use resolver_addon.Prelude.Int.{ℤ, pos, negsuc, eqb_ℤ, eqb_ℤ_refl}
use resolver_addon.Tunnel.{is_empty}
use resolver_addon.Tunnel.Parse.{drop_empty}
use resolver_addon.Anime.Columns.{
  fields_of, ended, value_of, before_part, map_part, before_value, map_value, put_regular,
  append_to, scan_before_part, scan_before_parts, scan_before, append_parsed, scan_values,
  scan_map_part, scan_key, put_parsed, scan_map_parts, scan_map,
}

-- A part between ';'.
abbrev IsPart : Bytes → Type 0
IsPart p = (is_empty p ≡ false) × Lacks b';' p

fields-ended :
    (parts : List Bytes) → All IsPart parts → drop_empty (split (ended parts) b';') ≡ parts
unfolding ended drop_empty
fields-ended [] h = rw (split-Lacks b';' [] tt) refl
fields-ended (p ∷ parts) ((hp, lacks), h) =
    rw (split-append b';' p (ended parts), split-Lacks b';' p lacks, hp)
      (ap (λ l. p ∷ l) (fields-ended parts h))

fields-value : (parts : List Bytes) → All IsPart parts → fields_of (value_of parts) ≡ parts
unfolding drop_empty
fields-value [] h = rw (split-Lacks b';' [] tt) refl
fields-value (p ∷ parts) h =
    rw (split-append b';' [] (ended (p ∷ parts)), split-Lacks b';' [] tt)
      (fields-ended (p ∷ parts) h)

-- A number of an episode of the anime.
abbrev IsEpisode : ℤ → Type 0
IsEpisode (pos n) = IsInt (pos n)
IsEpisode (negsuc n) = ⊥

-- No entry has the key.
abbrev HasNo {ℓ} : {V : Type ℓ} → List (ℤ × V) → ℤ → Type 0
HasNo m k = All (λ e. eqb_ℤ e.0 k ≡ false) m

abbrev Fresh {ℓ} : {V : Type ℓ} → List (ℤ × V) → List (ℤ × V) → Type 0
Fresh m [] = Unit
Fresh m (e ∷ es) = HasNo m e.0 × Fresh m es

-- Each key has one entry.
abbrev pub AreDistinct {ℓ} : {V : Type ℓ} → List (ℤ × V) → Type 0
AreDistinct [] = Unit
AreDistinct (e ∷ es) = Fresh (e ∷ []) es × AreDistinct es

put_regular-new : (m : List (ℤ × ℤ)) (k v : ℤ) → HasNo m k → put_regular m k v ≡ m ++ (k, v) ∷ []
unfolding put_regular
put_regular-new [] k v h = refl
put_regular-new (e ∷ m) k v (he, h) = rw he (ap (λ l. e ∷ l) (put_regular-new m k v h))

append_to-new :
    (m : List (ℤ × List ℤ)) (k v : ℤ) → HasNo m k → append_to m k v ≡ m ++ (k, v ∷ []) ∷ []
unfolding append_to
append_to-new [] k v h = refl
append_to-new (e ∷ m) k v (he, h) = rw he (ap (λ l. e ∷ l) (append_to-new m k v h))

append_to-last :
    (m : List (ℤ × List ℤ)) (k v : ℤ) (vs : List ℤ)
    → HasNo m k
    → append_to (m ++ (k, vs) ∷ []) k v ≡ m ++ (k, vs ++ v ∷ []) ∷ []
unfolding append_to
append_to-last [] k v vs h = rw (eqb_ℤ_refl k) refl
append_to-last (e ∷ m) k v vs (he, h) = rw he (ap (λ l. e ∷ l) (append_to-last m k v vs h))

scan_values-last :
    (m : List (ℤ × List ℤ)) (k : ℤ) (vs ws : List ℤ)
    → HasNo m k
    → All IsInt ws
    → scan_values (m ++ (k, vs) ∷ []) k (map itoa ws) ≡ m ++ (k, vs ++ ws) ∷ []
unfolding scan_values
scan_values-last m k vs [] h hs = rw (append-nil vs) refl
scan_values-last m k vs (w ∷ ws) h (hw, hs) =
    ap (λ r. scan_values (append_parsed (m ++ (k, vs) ∷ []) k r) k (map itoa ws)) (atoi-itoa w hw)
    ∙ ap (λ l. scan_values l k (map itoa ws)) (append_to-last m k w vs h)
    ∙ scan_values-last m k (vs ++ w ∷ []) ws h hs
    ∙ ap (λ l. m ++ (k, l) ∷ []) (append_assoc vs (w ∷ []) ws)

Fresh-append {ℓ} :
    {V : Type ℓ} (m : List (ℤ × V)) (e : ℤ × V) (es : List (ℤ × V))
    → Fresh m es
    → Fresh (e ∷ []) es
    → Fresh (m ++ e ∷ []) es
Fresh-append m e [] h k = tt
Fresh-append m e (f ∷ es) (hf, h) (kf, k) = (All-append _ m (e ∷ []) hf kf, Fresh-append m e es h k)

-- The entries of a column: the episodes of the anime are not below 0, all numbers are ints.
abbrev pub IsBefore : ℤ × ℤ → Type 0
IsBefore e = IsEpisode e.0 × IsInt e.1

abbrev HasValue : List ℤ → Type 0
HasValue [] = ⊥
HasValue (v ∷ vs) = Unit

abbrev pub IsMapped : ℤ × List ℤ → Type 0
IsMapped e = IsEpisode e.0 × (HasValue e.1 × All IsInt e.1)

cut_at_dash : (k : ℤ) (s : Bytes) → IsEpisode k → cut (itoa k ++ b'-' ∷ s) b'-' ≡ some (itoa k, s)
cut_at_dash (pos n) s h = cut-append b'-' (itoa (pos n)) s (itoa-Lacks_dash n)
cut_at_dash (negsuc n) s h = absurd h

episode-IsInt : (k : ℤ) → IsEpisode k → IsInt k
episode-IsInt (pos n) h = h
episode-IsInt (negsuc n) h = absurd h

scan_before-part :
    (m : List (ℤ × ℤ)) (k v : ℤ)
    → IsEpisode k
    → IsInt v
    → HasNo m k
    → scan_before_part m (cut (before_part (k, v)) b'-') ≡ m ++ (k, v) ∷ []
scan_before-part m k v hk hv fk =
    ap (scan_before_part m) (cut_at_dash k (itoa v) hk)
    ∙ ap (λ r. put_parsed m r (atoi (itoa v))) (atoi-itoa k (episode-IsInt k hk))
    ∙ ap (put_parsed m (some k)) (atoi-itoa v hv)
    ∙ put_regular-new m k v fk

scan_before-parts :
    (m es : List (ℤ × ℤ))
    → All IsBefore es
    → Fresh m es
    → AreDistinct es
    → scan_before_parts m (map before_part es) ≡ m ++ es
unfolding scan_before_parts
scan_before-parts m [] h f d = sym (append-nil m)
scan_before-parts m ((k, v) ∷ es) ((hk, hv), h) (fk, f) (dk, d) =
    ap (λ l. scan_before_parts l (map before_part es)) (scan_before-part m k v hk hv fk)
    ∙ scan_before-parts (m ++ (k, v) ∷ []) es h (Fresh-append m (k, v) es f dk) d
    ∙ append_assoc m ((k, v) ∷ []) es

scan_values-new :
    (m : List (ℤ × List ℤ)) (k : ℤ) (vs : List ℤ)
    → HasNo m k
    → HasValue vs
    → All IsInt vs
    → scan_values m k (split (join (map itoa vs) b'+') b'+') ≡ m ++ (k, vs) ∷ []
unfolding scan_values
scan_values-new m k [] h some_value hs = absurd some_value
scan_values-new m k (v ∷ vs) h some_value (hv, hs) =
    ap (scan_values m k) (split-join b'+' (itoa v) (map itoa vs) (lacks (v ∷ vs)))
    ∙ ap (λ r. scan_values (append_parsed m k r) k (map itoa vs)) (atoi-itoa v hv)
    ∙ ap (λ l. scan_values l k (map itoa vs)) (append_to-new m k v h)
    ∙ scan_values-last m k (v ∷ []) vs h hs
  where
    lacks : (ws : List ℤ) → All (Lacks b'+') (map itoa ws)
    lacks [] = tt
    lacks (w ∷ ws) = (itoa-Lacks_below b'+' w (omega arith), lacks ws)

scan_map-parts :
    (m es : List (ℤ × List ℤ))
    → All IsMapped es
    → Fresh m es
    → AreDistinct es
    → scan_map_parts m (map map_part es) ≡ m ++ es
unfolding scan_map_parts
scan_map-parts m [] h f d = sym (append-nil m)
scan_map-parts m ((k, vs) ∷ es) ((hk, (some_value, hv)), h) (fk, f) (dk, d) =
    ap (λ l. scan_map_parts l (map map_part es))
      (ap (scan_map_part m) (cut_at_dash k (join (map itoa vs) b'+') hk)
        ∙ ap (λ r. scan_key m r (split (join (map itoa vs) b'+') b'+'))
            (atoi-itoa k (episode-IsInt k hk))
        ∙ scan_values-new m k vs fk some_value hv)
    ∙ scan_map-parts (m ++ (k, vs) ∷ []) es h (Fresh-append m (k, vs) es f dk) d
    ∙ append_assoc m ((k, vs) ∷ []) es

-- A number in front of a '-' makes a part.
itoa-IsPart : (k : ℤ) (s : Bytes) → Lacks b';' s → IsPart (itoa k ++ b'-' ∷ s)
itoa-IsPart k s h = (
  some_byte (itoa k),
  All-append (λ c. c ≢ b';') (itoa k) (b'-' ∷ s) (itoa-Lacks b';' k (omega arith)) (omega arith, h),
)
  where
    some_byte : (t : Bytes) → is_empty (t ++ b'-' ∷ s) ≡ false
    some_byte [] = refl
    some_byte (c ∷ t) = refl

join-Lacks : (vs : List ℤ) → Lacks b';' (join (map itoa vs) b'+')
unfolding join
join-Lacks [] = tt
join-Lacks (v ∷ []) = itoa-Lacks b';' v (omega arith)
join-Lacks (v ∷ w ∷ vs) =
    All-append (λ c. c ≢ b';') (itoa v) _ (itoa-Lacks b';' v (omega arith))
      (omega arith, join-Lacks (w ∷ vs))

before_parts-IsPart : (es : List (ℤ × ℤ)) → All IsPart (map before_part es)
before_parts-IsPart [] = tt
before_parts-IsPart (e ∷ es) =
    (itoa-IsPart e.0 (itoa e.1) (itoa-Lacks b';' e.1 (omega arith)), before_parts-IsPart es)

map_parts-IsPart : (es : List (ℤ × List ℤ)) → All IsPart (map map_part es)
map_parts-IsPart [] = tt
map_parts-IsPart (e ∷ es) =
    (itoa-IsPart e.0 (join (map itoa e.1) b'+') (join-Lacks e.1), map_parts-IsPart es)

Fresh-nil {ℓ} : {V : Type ℓ} (es : List (ℤ × V)) → Fresh [] es
Fresh-nil [] = tt
Fresh-nil (e ∷ es) = (tt, Fresh-nil es)

-- Scan of the column of Value is the map again, if each special episode has one entry, and no special episode is
-- below 0.
pub scan_before-before_value :
    (before : List (ℤ × ℤ))
    → All IsBefore before
    → AreDistinct before
    → scan_before [] (before_value before) ≡ before
unfolding scan_before before_value
scan_before-before_value before h d =
    ap (scan_before_parts []) (fields-value (map before_part before) (before_parts-IsPart before))
    ∙ scan_before-parts [] before h (Fresh-nil before) d

-- Scan of the column of Value is the map again, if each episode has one entry with at least one episode of the
-- series, and no episode of the anime is below 0.
pub scan_map-map_value :
    (m : List (ℤ × List ℤ)) → All IsMapped m → AreDistinct m → scan_map [] (map_value m) ≡ m
unfolding scan_map map_value
scan_map-map_value m h d =
    ap (scan_map_parts []) (fields-value (map map_part m) (map_parts-IsPart m))
    ∙ scan_map-parts [] m h (Fresh-nil m) d
