-- ===== src/Trakt/EpisodeKeys.antt =====
-- The key of an episode in internal/worker/sync_stremio_trakt.go tells episodes apart.
use resolver_addon.Prelude.{
  ◌≡◌, sym, ap, ◌∙◌, true, ◌&&◌, [], Option, none, some, arith, inl, inr, Bool-cases,
}
use resolver_addon.Prelude.Affix.{cut, cut-append}
use resolver_addon.Prelude.Bytes.{Bytes, bytes_eq, bytes_eq_sound, bytes_eq_refl}
use resolver_addon.Prelude.Decimal.{itoa, itoa-Lacks, itoa-inj}
use resolver_addon.Prelude.Int.{ℤ, eqb_ℤ, eq_of_eqb, eqb_ℤ_refl}
use resolver_addon.Trakt.SeriesTo.{episode_key}

cut-episode_key : (a b : ℤ) → cut (episode_key a b) b':' ≡ some (itoa a, itoa b)
unfolding episode_key
cut-episode_key a b = cut-append b':' (itoa a) (itoa b) (itoa-Lacks b':' a (omega arith))

episode_key-inj : (a b c d : ℤ) → episode_key a b ≡ episode_key c d → (a ≡ c) × (b ≡ d)
episode_key-inj a b c d e =
    let p : Path (Option (Bytes × Bytes)) (some (itoa a, itoa b)) (some (itoa c, itoa d)) =
      sym (cut-episode_key a b) ∙ ap (λ s. cut s b':') e ∙ cut-episode_key c d in
    (itoa-inj a c (ap (λ o. fst_of o) p), itoa-inj b d (ap (λ o. snd_of o) p))
  where
    fst_of : Option (Bytes × Bytes) → Bytes
    fst_of none = []
    fst_of (some r) = r.0

    snd_of : Option (Bytes × Bytes) → Bytes
    snd_of none = []
    snd_of (some r) = r.1

both_eqb : (a c : ℤ) → a ≡ c → eqb_ℤ a c ≡ true
both_eqb a c e = ap (eqb_ℤ a) (sym e) ∙ eqb_ℤ_refl a

-- Two keys are the same exactly if the seasons are and the episodes are.
pub episode_key-bytes_eq :
    (a b c d : ℤ) → bytes_eq (episode_key a b) (episode_key c d) ≡ (eqb_ℤ a c && eqb_ℤ b d)
episode_key-bytes_eq a b c d = elim (Bool-cases (bytes_eq (episode_key a b) (episode_key c d))) [
  | inl same ↦
      let (p, q) = episode_key-inj a b c d (bytes_eq_sound _ _ same) in
      ground (arith, same, both_eqb a c p, both_eqb b d q)
  | inr off ↦ elim (Bool-cases (eqb_ℤ a c && eqb_ℤ b d)) [
    | inr apart ↦ ground (arith, off, apart)
    | inl at ↦
        let p : eqb_ℤ a c ≡ true = ground (arith, at) in
        let q : eqb_ℤ b d ≡ true = ground (arith, at) in
        let same : episode_key a b ≡ episode_key c d =
          ap (λ x. episode_key x b) (eq_of_eqb a c p) ∙ ap (episode_key c) (eq_of_eqb b d q) in
        ap (bytes_eq (episode_key a b)) (sym same) ∙ bytes_eq_refl (episode_key a b) ∙ sym at
  ]
]
