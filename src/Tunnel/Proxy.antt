-- ===== src/Tunnel/Proxy.antt =====
-- `getProxy`: the rounds are enough, and what it keeps in the map changes no answer.
use mathlib.Core.Path.{subst}
use resolver_addon.Prelude.{
  ℕ, zero, suc, ◌≤◌, ◌<◌, ◌≡◌, refl, ap, sym, ◌∙◌, false, [], ◌∷◌, Option, none, some, arith, inl,
  inr, Bool-cases, Option-cases, if◌then◌else◌, length,
}
use resolver_addon.Prelude.Assoc.{find, store, find-store}
use resolver_addon.Prelude.Bytes.{Bytes, bytes_eq, bytes_eq_refl, bytes_eq_sound}
use resolver_addon.Tunnel.{Url, TunnelMap, parent, is_empty, search, rounds, get_proxy}

length-parent_le : (hn : Bytes) → length (parent hn) ≤ length hn
unfolding parent
length-parent_le [] = omega arith
length-parent_le (c ∷ hn) = ground (arith, length-parent_le hn)

length-parent : (hn : Bytes) → is_empty (parent hn) ≡ false → length (parent hn) < length hn
unfolding parent
length-parent [] h = ground arith
length-parent (c ∷ hn) h = ground (arith, length-parent_le hn)

search-none :
    (tm : TunnelMap) (n : ℕ) (hn : Bytes)
    → find tm hn ≡ none
    → search tm (suc n) hn ≡ (if is_empty (parent hn) then none else search tm n (parent hn))
unfolding search
search-none tm n hn e = rw (e, search)

pub search-some :
    (tm : TunnelMap) (n : ℕ) (hn : Bytes) {p : Url}
    → find tm hn ≡ some p
    → search tm (suc n) hn ≡ some (hn, p)
unfolding search
search-some tm n hn e = rw (e, search)

abbrev pub proxy_of : Option (Bytes × Url) → Option Url
proxy_of none = none
proxy_of (some (hn, proxy)) = some proxy

-- More rounds than the name has characters find what the loop finds.
pub search_enough :
    (tm : TunnelMap) (n m : ℕ) (hn : Bytes)
    → length hn < n
    → length hn < m
    → search tm n hn ≡ search tm m hn
search_enough tm zero m hn h k = absurd (omega arith)
search_enough tm (suc n) zero hn h k = absurd (omega arith)
search_enough tm (suc n) (suc m) hn h k = elim (Option-cases (find tm hn)) [
  | inr (p, found) ↦ search-some tm n hn found ∙ sym (search-some tm m hn found)
  | inl gone ↦
      rw (search-none tm n hn gone, search-none tm m hn gone)
        (elim (Bool-cases (is_empty (parent hn))) [
          | inl last ↦ rw last
          | inr more ↦
              let lt = length-parent hn more in
              rw more (search_enough tm n m (parent hn) (omega (arith, lt)) (omega (arith, lt)))
        ])
]

-- The proxy of a host: that of the longest name in the map that ends it at a dot.
pub proxy : TunnelMap → Bytes → Option Url
proxy tm hostname = proxy_of (search tm (rounds hostname) hostname)

module _ (tm : TunnelMap) (h : Bytes) (p : Url) (found : proxy tm h ≡ some p) where
  abbrev kept : TunnelMap
  kept = store tm h p

  at_host : (n : ℕ) → length h < n → proxy_of (search tm n h) ≡ some p
  unfolding proxy
  at_host n lt = ap proxy_of (search_enough tm n (rounds h) h lt (omega arith)) ∙ found

  find-other : (hn : Bytes) → bytes_eq h hn ≡ false → find kept hn ≡ find tm hn
  find-other hn other = find-store tm h hn p ∙ rw other

  find-host : find kept h ≡ some p
  find-host = find-store tm h h p ∙ rw (bytes_eq_refl h)

  search-kept :
      (n : ℕ) (hn : Bytes) → length hn < n → proxy_of (search kept n hn) ≡ proxy_of (search tm n hn)
  search-kept zero hn lt = absurd (omega arith)
  search-kept (suc n) hn lt = elim (Bool-cases (bytes_eq h hn)) [
    | inl same ↦
        subst
          (λ x.
            length x < suc n → proxy_of (search kept (suc n) x) ≡ proxy_of (search tm (suc n) x))
          (bytes_eq_sound h hn same)
          (λ lt. ap proxy_of (search-some kept n h find-host) ∙ sym (at_host (suc n) lt)) lt
    | inr other ↦ elim (Option-cases (find tm hn)) [
      | inr (q, here) ↦
          ap proxy_of
            (search-some kept n hn (find-other hn other ∙ here) ∙ sym (search-some tm n hn here))
      | inl gone ↦
          rw (search-none kept n hn (find-other hn other ∙ gone), search-none tm n hn gone)
            (elim (Bool-cases (is_empty (parent hn))) [
              | inl last ↦ rw last
              | inr more ↦
                  let l = length-parent hn more in
                  rw more (search-kept n (parent hn) (omega (arith, l)))
            ])
    ]
  ]

  proxy-kept : (host : Bytes) → proxy kept host ≡ proxy tm host
  unfolding proxy
  proxy-kept host = search-kept (rounds host) host (omega arith)

-- `getProxy` answers with the proxy of the host, and what it keeps in the map changes the proxy of
-- no host.
pub get_proxy_lem :
    (tm : TunnelMap) (hostname : Bytes)
    → ((get_proxy tm hostname).1 ≡ proxy tm hostname)
      × ((host : Bytes) → proxy (get_proxy tm hostname).0 host ≡ proxy tm host)
unfolding get_proxy proxy
get_proxy_lem tm hostname = elim (Option-cases (search tm (rounds hostname) hostname)) [
  | inl gone ↦ rw (gone, get_proxy) (refl, λ host. refl)
  | inr ((hn, p), found) ↦
      rw (found, get_proxy)
        (
          refl,
          elim (Bool-cases (bytes_eq hn hostname)) [
            | inl here ↦ rw here (λ host. refl)
            | inr above ↦ rw above (λ host. proxy-kept tm hostname p (ap proxy_of found) host)
          ],
        )
]

-- The proxy of a host is its own entry; without one it is that of the part behind the first dot, if
-- there is such a part, and else there is none.
pub get_proxy-parent :
    (tm : TunnelMap) (hostname : Bytes)
    → (get_proxy tm hostname).1 ≡ elim (find tm hostname) [
      | some p ↦ some p
      | none ↦ if is_empty (parent hostname) then none else (get_proxy tm (parent hostname)).1
    ]
unfolding proxy
get_proxy-parent tm hostname = elim (Option-cases (find tm hostname)) [
  | inr (p, found) ↦ rw found (
      (get_proxy_lem tm hostname).0 ∙ ap proxy_of (search-some tm (length hostname) hostname found))
  | inl gone ↦ rw gone (
      (get_proxy_lem tm hostname).0
      ∙ ap proxy_of (search-none tm (length hostname) hostname gone)
      ∙ above)
]
  where
    above :
        proxy_of (
          if is_empty (parent hostname)
          then none
          else search tm (length hostname) (parent hostname))
        ≡ (if is_empty (parent hostname) then none else (get_proxy tm (parent hostname)).1)
    above = elim (Bool-cases (is_empty (parent hostname))) [
      | inl last ↦ rw last
      | inr more ↦ rw more (
          ap proxy_of (
            search_enough tm (length hostname) (rounds (parent hostname)) (parent hostname)
              (length-parent hostname more) (omega arith))
          ∙ sym (get_proxy_lem tm (parent hostname)).0)
    ]
