-- ===== src/Tunnel/Parse.antt =====
-- `parseTunnel`: the tunnel map of the three settings, and what it does to the environment.
use resolver_addon.Prelude.{
  ◌≡◌, refl, ◌∙◌, false, List, [], ◌∷◌, Option, none, some, arith, inl, inr, Bool-cases,
  if◌then◌else◌,
}
use resolver_addon.Prelude.Assoc.{find, store, find-store}
use resolver_addon.Prelude.Bytes.{Bytes, codes, bytes_eq, bytes_eq_refl, split}
use resolver_addon.Tunnel.{Url, TunnelMap, no_url, star, cut, is_empty}

-- The variables that the program sets.
pub record Env : Type 0 where
  pub http_proxy : Option Bytes
  pub https_proxy : Option Bytes
  pub no_proxy : Option Bytes

-- The parts between commas that are not empty (strings.FieldsFunc).
unfoldable pub drop_empty : List Bytes → List Bytes
drop_empty [] = []
drop_empty (p ∷ ps) = let rest = drop_empty ps in if is_empty p then rest else p ∷ rest

unfoldable pub fields : Bytes → List Bytes
unfolding drop_empty
fields text = drop_empty (split text b',')

-- The value of a parsed url, or the one before.
abbrev pub parsed_or : Url → Option Url → Url
parsed_or old none = old
parsed_or old (some u) = u

module _ (parse_url : Bytes → Option Url) where
  abbrev with_http : Bytes → Env × Url → Env × Url
  with_http value (env, default) = if is_empty value then (env, default) else (
    record env { http_proxy = some value; https_proxy = some value },
    parsed_or default (parse_url value),
  )

  abbrev with_https : Bytes → Env × Url → Env × Url
  with_https value (env, default) = if is_empty value then (env, default) else (
    record env { https_proxy = some value },
    if is_empty default.host then parsed_or default (parse_url value) else default,
  )

  -- `*:false` and `*:true`
  abbrev pub set_no_proxy : Bytes → Env → Env
  set_no_proxy proxy env =
      if bytes_eq proxy (codes "false")
      then record env { no_proxy = some star }
      else if bytes_eq proxy (codes "true")
      then record env { no_proxy = none }
      else env

  abbrev store_parsed : TunnelMap → Bytes → Option Url → TunnelMap
  store_parsed tm hostname none = tm
  store_parsed tm hostname (some u) = store tm hostname u

  abbrev pub set_proxy : Url → Bytes → Bytes → TunnelMap → TunnelMap
  set_proxy default hostname proxy tm =
      if bytes_eq proxy (codes "false")
      then store tm hostname no_url
      else if bytes_eq proxy (codes "true")
      then store tm hostname default
      else store_parsed tm hostname (parse_url proxy)

  abbrev pub add_entry : Url → Option (Bytes × Bytes) → Env × TunnelMap → Env × TunnelMap
  add_entry default none s = s
  add_entry default (some (hostname, proxy)) (env, tm) =
      if bytes_eq hostname star
      then (set_no_proxy proxy env, tm)
      else (env, set_proxy default hostname proxy tm)

  unfoldable pub add_entries : Url → List Bytes → Env × TunnelMap → Env × TunnelMap
  add_entries default [] s = s
  add_entries default (entry ∷ entries) s =
      add_entries default entries (add_entry default (cut entry b':') s)

  -- The default proxy, and the environment it leaves.
  unfoldable pub default_proxy : (http_proxy https_proxy : Bytes) → Env → Env × Url
  default_proxy http_proxy https_proxy env =
      with_https https_proxy (with_http http_proxy (env, no_url))

  unfoldable pub parse_tunnel : (http_proxy https_proxy tunnel : Bytes) → Env → Env × TunnelMap
  unfolding add_entries default_proxy fields
  parse_tunnel http_proxy https_proxy tunnel env =
      let (env', default) = default_proxy http_proxy https_proxy env in
      add_entries default (fields tunnel) (env', store [] star default)

  set_proxy-star :
      (default : Url) (hostname proxy : Bytes) (tm : TunnelMap)
      → bytes_eq hostname star ≡ false
      → find (set_proxy default hostname proxy tm) star ≡ find tm star
  set_proxy-star default hostname proxy tm h = ground (
    arith,
    find-store tm hostname star no_url,
    find-store tm hostname star default,
    parsed (parse_url proxy),
  )
    where
      parsed : (o : Option Url) → find (store_parsed tm hostname o) star ≡ find tm star
      parsed none = refl
      parsed (some u) = find-store tm hostname star u ∙ rw h

  add_entry-star :
      (default : Url) (o : Option (Bytes × Bytes)) (s : Env × TunnelMap)
      → find (add_entry default o s).1 star ≡ find s.1 star
  add_entry-star default none s = refl
  add_entry-star default (some (hostname, proxy)) (env, tm) =
      elim (Bool-cases (bytes_eq hostname star)) [
        | inl all ↦ rw all refl
        | inr one ↦ rw one (set_proxy-star default hostname proxy tm one)
      ]

  pub add_entries-star :
      (default : Url) (entries : List Bytes) (s : Env × TunnelMap)
      → find (add_entries default entries s).1 star ≡ find s.1 star
  unfolding add_entries
  add_entries-star default [] s = refl
  add_entries-star default (entry ∷ entries) s =
      add_entries-star default entries (add_entry default (cut entry b':') s)
      ∙ add_entry-star default (cut entry b':') s

  -- No entry of the tunnel setting replaces the default proxy: it stands under `*`.
  pub parse_tunnel-star :
      (http_proxy https_proxy tunnel : Bytes) (env : Env)
      → find (parse_tunnel http_proxy https_proxy tunnel env).1 star
        ≡ some (default_proxy http_proxy https_proxy env).1
  unfolding parse_tunnel
  parse_tunnel-star http_proxy https_proxy tunnel env =
      let (env', default) = default_proxy http_proxy https_proxy env in
      add_entries-star default (fields tunnel) (env', store [] star default)
      ∙ find-store [] star star default
      ∙ rw (bytes_eq_refl star)
