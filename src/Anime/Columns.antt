-- ===== src/Anime/Columns.antt =====
-- The columns of internal/anidb/tvdb_episode_map.db.go: `Value` and `Scan` of AniDBTVDBEpisodeMapBefore and
-- AniDBTVDBEpisodeMapMap. A map is walked in the order of its list. The trim of ';' in `Scan` takes nothing from the
-- fields between them, and is left out.
use resolver_addon.Prelude.{List, [], ◌∷◌, ◌++◌, Option, none, some, if◌then◌else◌, map}
use resolver_addon.Prelude.Affix.{cut}
use resolver_addon.Prelude.Bytes.{Bytes, split, join}
use resolver_addon.Prelude.Decimal.{itoa, atoi}
use resolver_addon.Prelude.Int.{ℤ, eqb_ℤ}
use resolver_addon.Tunnel.Parse.{drop_empty}

-- strings.FieldsFunc
abbrev pub fields_of : Bytes → List Bytes
fields_of s = drop_empty (split s b';')

unfoldable pub ended : List Bytes → Bytes
ended [] = []
ended (p ∷ parts) = p ++ b';' ∷ ended parts

-- The parts with a ';' in front and behind, or the empty text.
abbrev pub value_of : List Bytes → Bytes
value_of [] = []
value_of (p ∷ parts) = b';' ∷ ended (p ∷ parts)

abbrev pub before_part : ℤ × ℤ → Bytes
before_part e = itoa e.0 ++ b'-' ∷ itoa e.1

abbrev pub map_part : ℤ × List ℤ → Bytes
map_part e = itoa e.0 ++ b'-' ∷ join (map itoa e.1) b'+'

-- AniDBTVDBEpisodeMapBefore.Value
unfoldable pub before_value : List (ℤ × ℤ) → Bytes
unfolding ended
before_value before = value_of (map before_part before)

-- AniDBTVDBEpisodeMapMap.Value
unfoldable pub map_value : List (ℤ × List ℤ) → Bytes
unfolding ended
map_value m = value_of (map map_part m)

-- before[special] = regular
unfoldable pub put_regular : List (ℤ × ℤ) → ℤ → ℤ → List (ℤ × ℤ)
put_regular [] k v = (k, v) ∷ []
put_regular (e ∷ m) k v =
    let later = put_regular m k v in if eqb_ℤ e.0 k then (k, v) ∷ m else e ∷ later

-- m[anidb] = append(m[anidb], tvdb)
unfoldable pub append_to : List (ℤ × List ℤ) → ℤ → ℤ → List (ℤ × List ℤ)
append_to [] k v = (k, v ∷ []) ∷ []
append_to (e ∷ m) k v =
    let later = append_to m k v in if eqb_ℤ e.0 k then (k, e.1 ++ v ∷ []) ∷ m else e ∷ later

abbrev pub put_parsed : List (ℤ × ℤ) → Option ℤ → Option ℤ → List (ℤ × ℤ)
put_parsed m none v = m
put_parsed m (some k) none = m
put_parsed m (some k) (some v) = put_regular m k v

abbrev pub scan_before_part : List (ℤ × ℤ) → Option (Bytes × Bytes) → List (ℤ × ℤ)
scan_before_part m none = m
scan_before_part m (some r) = put_parsed m (atoi r.0) (atoi r.1)

unfoldable pub scan_before_parts : List (ℤ × ℤ) → List Bytes → List (ℤ × ℤ)
unfolding put_regular
scan_before_parts m [] = m
scan_before_parts m (p ∷ parts) = scan_before_parts (scan_before_part m (cut p b'-')) parts

-- AniDBTVDBEpisodeMapBefore.Scan of a text
unfoldable pub scan_before : List (ℤ × ℤ) → Bytes → List (ℤ × ℤ)
unfolding scan_before_parts
scan_before m s = scan_before_parts m (fields_of s)

abbrev pub append_parsed : List (ℤ × List ℤ) → ℤ → Option ℤ → List (ℤ × List ℤ)
append_parsed m k none = m
append_parsed m k (some v) = append_to m k v

unfoldable pub scan_values : List (ℤ × List ℤ) → ℤ → List Bytes → List (ℤ × List ℤ)
unfolding append_to
scan_values m k [] = m
scan_values m k (v ∷ values) = scan_values (append_parsed m k (atoi v)) k values

abbrev pub scan_key : List (ℤ × List ℤ) → Option ℤ → List Bytes → List (ℤ × List ℤ)
scan_key m none values = m
scan_key m (some k) values = scan_values m k values

abbrev pub scan_map_part : List (ℤ × List ℤ) → Option (Bytes × Bytes) → List (ℤ × List ℤ)
scan_map_part m none = m
scan_map_part m (some r) = scan_key m (atoi r.0) (split r.1 b'+')

unfoldable pub scan_map_parts : List (ℤ × List ℤ) → List Bytes → List (ℤ × List ℤ)
unfolding scan_values
scan_map_parts m [] = m
scan_map_parts m (p ∷ parts) = scan_map_parts (scan_map_part m (cut p b'-')) parts

-- AniDBTVDBEpisodeMapMap.Scan of a text
unfoldable pub scan_map : List (ℤ × List ℤ) → Bytes → List (ℤ × List ℤ)
unfolding scan_map_parts
scan_map m s = scan_map_parts m (fields_of s)
