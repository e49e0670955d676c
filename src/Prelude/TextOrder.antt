-- ===== src/Prelude/TextOrder.antt =====
-- Go compares strings byte by byte.
use resolver_addon.Prelude.{◌≡◌, refl, [], ◌∷◌, arith, ltb, if◌then◌else◌}
use resolver_addon.Prelude.Bytes.{Bytes}

pub data Order : Type 0 where
  less same more : Order

-- a < b, a == b, a > b
unfoldable pub compare_bytes : Bytes → Bytes → Order
compare_bytes [] [] = same
compare_bytes [] (d ∷ t) = less
compare_bytes (c ∷ s) [] = more
compare_bytes (c ∷ s) (d ∷ t) =
    let rest = compare_bytes s t in if ltb c d then less else if ltb d c then more else rest

pub compare_bytes-same : (s t : Bytes) → compare_bytes s t ≡ same → s ≡ t
unfolding compare_bytes
compare_bytes-same [] [] h = refl
compare_bytes-same [] (d ∷ t) h = ground arith
compare_bytes-same (c ∷ s) [] h = ground arith
compare_bytes-same (c ∷ s) (d ∷ t) h = ground (arith, compare_bytes-same s t)

pub compare_bytes_refl : (s : Bytes) → compare_bytes s s ≡ same
unfolding compare_bytes
compare_bytes_refl [] = refl
compare_bytes_refl (c ∷ s) = ground (arith, compare_bytes_refl s)

pub compare_bytes-more : (s t : Bytes) → compare_bytes s t ≡ more → compare_bytes t s ≡ less
unfolding compare_bytes
compare_bytes-more [] [] h = ground arith
compare_bytes-more [] (d ∷ t) h = ground arith
compare_bytes-more (c ∷ s) [] h = refl
compare_bytes-more (c ∷ s) (d ∷ t) h = ground (arith, compare_bytes-more s t)

pub compare_bytes-less : (s t : Bytes) → compare_bytes s t ≡ less → compare_bytes t s ≡ more
unfolding compare_bytes
compare_bytes-less [] [] h = ground arith
compare_bytes-less [] (d ∷ t) h = refl
compare_bytes-less (c ∷ s) [] h = ground arith
compare_bytes-less (c ∷ s) (d ∷ t) h = ground (arith, compare_bytes-less s t)

pub compare_bytes_trans :
    (s t u : Bytes) → compare_bytes s t ≡ less → compare_bytes t u ≡ less → compare_bytes s u ≡ less
unfolding compare_bytes
compare_bytes_trans [] [] u h k = ground arith
compare_bytes_trans [] (d ∷ t) [] h k = ground arith
compare_bytes_trans [] (d ∷ t) (e ∷ u) h k = refl
compare_bytes_trans (c ∷ s) [] u h k = ground arith
compare_bytes_trans (c ∷ s) (d ∷ t) [] h k = ground arith
compare_bytes_trans (c ∷ s) (d ∷ t) (e ∷ u) h k = ground (arith, compare_bytes_trans s t u)
