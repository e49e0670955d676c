-- ===== src/Tunnel/Stores.antt =====
-- `parseStoreTunnel`: whether a store is reached through the tunnel, and the proxies of the hosts
-- that serve a store's content. A `none` is a panic: there is no proxy under `*`.
use mathlib.Core.Path.{subst}
use resolver_addon.Prelude.{
  ◌≡◌, refl, sym, ◌∙◌, Bool, true, false, ◌||◌, List, [], ◌∷◌, Option, none, some, arith, inl, inr,
  Bool-cases, Option-cases, if◌then◌else◌,
}
use resolver_addon.Prelude.Assoc.{Assoc, find, store, find-store}
use resolver_addon.Prelude.Bytes.{Bytes, codes, bytes_eq, bytes_eq_refl}
use resolver_addon.Tunnel.{
  Url, TunnelMap, TunnelType, type_none, forced, no_url, star, cut, get_proxy, search, rounds,
}
use resolver_addon.Tunnel.Parse.{fields}
use resolver_addon.Tunnel.Proxy.{search-some}

pub record StoreTunnelConfig : Type 0 where
  pub api : Bool
  pub stream : Bool

abbrev pub StoreTunnelConfigMap : Type 0
StoreTunnelConfigMap = Assoc StoreTunnelConfig

-- The setting of the store, else that of `*`, else true.
abbrev setting :
    (StoreTunnelConfig → Bool) → Option StoreTunnelConfig → Option StoreTunnelConfig → Bool
setting field (some c) other = field c
setting field none (some c) = field c
setting field none none = true

unfoldable pub is_enabled_for_api : StoreTunnelConfigMap → Bytes → Bool
is_enabled_for_api stc name = setting (λ c. c.api) (find stc name) (find stc star)

unfoldable pub is_enabled_for_stream : StoreTunnelConfigMap → Bytes → Bool
is_enabled_for_stream stc name = setting (λ c. c.stream) (find stc name) (find stc star)

abbrev pub tunnel_type : Bool → TunnelType
tunnel_type enabled = if enabled then forced else type_none

unfoldable pub get_type_for_api : StoreTunnelConfigMap → Bytes → TunnelType
unfolding is_enabled_for_api
get_type_for_api stc name = tunnel_type (is_enabled_for_api stc name)

unfoldable pub get_type_for_stream : StoreTunnelConfigMap → Bytes → TunnelType
unfolding is_enabled_for_stream
get_type_for_stream stc name = tunnel_type (is_enabled_for_stream stc name)

-- contentHostnameByStore, in one order of its entries
abbrev pub content_hostname_by_store : Assoc Bytes
content_hostname_by_store =
    (codes "alldebrid", codes "debrid.it")
    ∷ (codes "debridlink", codes "debrid.link")
    ∷ (codes "premiumize", codes "energycdn.com")
    ∷ (codes "realdebrid", codes "download.real-debrid.com")
    ∷ (codes "torbox", codes "tb-cdn.st")
    ∷ []

abbrev pub is_true : Bytes → Bool
is_true tunnel = bytes_eq tunnel (codes "true")

-- tunnelMap[hostname] = *tunnelMap.getProxy("*"), or no url
abbrev pub put_host : Bytes → Bytes → TunnelMap → TunnelMap × Option Url → Option TunnelMap
put_host tunnel hostname tm (tm', default) =
    if is_true tunnel
    then elim default [ none ↦ none | some u ↦ some (store tm' hostname u) ]
    else some (store tm hostname no_url)

abbrev pub set_host : Bytes → Bytes → TunnelMap → Option TunnelMap
set_host tunnel hostname tm = put_host tunnel hostname tm (get_proxy tm star)

-- `tunnelMap[hostname]`, if it is there already
abbrev add_host : Bytes → Bytes → TunnelMap → Option TunnelMap
add_host tunnel hostname tm = elim (find tm hostname) [
  | some u ↦ some tm
  | none ↦ set_host tunnel hostname tm
]

abbrev pub and_then : Option TunnelMap → (TunnelMap → Option TunnelMap) → Option TunnelMap
and_then none next = none
and_then (some tm) next = next tm

-- The hosts of all stores.
unfoldable pub add_hosts : Bytes → Assoc Bytes → TunnelMap → Option TunnelMap
add_hosts tunnel [] tm = some tm
add_hosts tunnel ((name, hostname) ∷ hosts) tm =
    and_then (add_host tunnel hostname tm) (add_hosts tunnel hosts)

abbrev one_host : Bytes → Option Bytes → TunnelMap → Option TunnelMap
one_host tunnel none tm = some tm
one_host tunnel (some hostname) tm = set_host tunnel hostname tm

abbrev pub config_of : Bytes → StoreTunnelConfig
config_of tunnel = record {
  api = is_true tunnel || bytes_eq tunnel (codes "api");
  stream = is_true tunnel;
}

abbrev pub hosts_of : Bytes → Bytes → TunnelMap → Option TunnelMap
hosts_of name tunnel tm =
    if bytes_eq name star
    then add_hosts tunnel content_hostname_by_store tm
    else one_host tunnel (find content_hostname_by_store name) tm

abbrev with_map :
    StoreTunnelConfigMap → Option TunnelMap → Option (StoreTunnelConfigMap × TunnelMap)
with_map stc none = none
with_map stc (some tm) = some (stc, tm)

abbrev pub add_store :
    Option (Bytes × Bytes)
    → StoreTunnelConfigMap
    → TunnelMap
    → Option (StoreTunnelConfigMap × TunnelMap)
add_store none stc tm = some (stc, tm)
add_store (some (name, tunnel)) stc tm =
    with_map (store stc name (config_of tunnel)) (hosts_of name tunnel tm)

unfoldable pub add_stores :
    List Bytes → StoreTunnelConfigMap → TunnelMap → Option (StoreTunnelConfigMap × TunnelMap)
unfolding add_hosts
add_stores [] stc tm = some (stc, tm)
add_stores (entry ∷ entries) stc tm = elim (add_store (cut entry b':') stc tm) [
  | none ↦ none
  | some (stc', tm') ↦ add_stores entries stc' tm'
]

unfoldable pub parse_store_tunnel : Bytes → TunnelMap → Option (StoreTunnelConfigMap × TunnelMap)
unfolding add_stores
parse_store_tunnel text tm = add_stores (fields text) [] tm

-- The default proxy is in the map.
abbrev pub HasDefault : Url → TunnelMap → Type 0
HasDefault default tm = find tm star ≡ some default

-- The result is there, and the default proxy is what it was.
abbrev Keeps : Url → Option TunnelMap → Type 0
Keeps default o = (tm : TunnelMap) × (o ≡ some tm) × HasDefault default tm

get_proxy-star :
    (default : Url) (tm : TunnelMap)
    → HasDefault default tm
    → get_proxy tm star ≡ (tm, some default)
unfolding get_proxy
get_proxy-star default tm h =
    let found : search tm (rounds star) star ≡ some (star, default) = search-some tm 1 star h in
    rw (found, get_proxy) (rw (bytes_eq_refl star))

set_host-Keeps :
    (default : Url) (tunnel hostname : Bytes) (tm : TunnelMap)
    → bytes_eq hostname star ≡ false
    → HasDefault default tm
    → Keeps default (set_host tunnel hostname tm)
set_host-Keeps default tunnel hostname tm ne h =
    subst (λ r. Keeps default (put_host tunnel hostname tm r)) (sym (get_proxy-star default tm h))
      (elim (Bool-cases (is_true tunnel)) [
        | inl on ↦
            rw on (store tm hostname default, refl, find-store tm hostname star default ∙ rw ne h)
        | inr off ↦
            rw off (store tm hostname no_url, refl, find-store tm hostname star no_url ∙ rw ne h)
      ])

add_host-Keeps :
    (default : Url) (tunnel hostname : Bytes) (tm : TunnelMap)
    → bytes_eq hostname star ≡ false
    → HasDefault default tm
    → Keeps default (add_host tunnel hostname tm)
add_host-Keeps default tunnel hostname tm ne h = elim (Option-cases (find tm hostname)) [
  | inl gone ↦ rw (gone, add_host) (set_host-Keeps default tunnel hostname tm ne h)
  | inr (u, here) ↦ rw (here, add_host) (tm, refl, h)
]

-- No host of a store is `*`.
abbrev pub AreHosts : Assoc Bytes → Type 0
AreHosts [] = Unit
AreHosts ((name, hostname) ∷ hosts) = (bytes_eq hostname star ≡ false) × AreHosts hosts

add_hosts-Keeps :
    (default : Url) (tunnel : Bytes) (hosts : Assoc Bytes) (tm : TunnelMap)
    → AreHosts hosts
    → HasDefault default tm
    → Keeps default (add_hosts tunnel hosts tm)
unfolding add_hosts
add_hosts-Keeps default tunnel [] tm a h = (tm, refl, h)
add_hosts-Keeps default tunnel ((name, hostname) ∷ hosts) tm (ne, a) h =
    let (tm', e, h') = add_host-Keeps default tunnel hostname tm ne h in
    rw e (add_hosts-Keeps default tunnel hosts tm' a h')

find-AreHosts :
    (hosts : Assoc Bytes) (name : Bytes) {hostname : Bytes}
    → AreHosts hosts
    → find hosts name ≡ some hostname
    → bytes_eq hostname star ≡ false
unfolding find
find-AreHosts [] name a e = cc
find-AreHosts ((k, host) ∷ hosts) name {hostname} a e = elim (Bool-cases (bytes_eq k name)) [
  | inl here ↦ let q : host ≡ hostname = ground arith in rw (← q) a.0
  | inr past ↦ find-AreHosts hosts name a.1 (ground arith)
]

content-AreHosts : AreHosts content_hostname_by_store
unfolding bytes_eq
content-AreHosts = (refl, (refl, (refl, (refl, (refl, tt)))))

hosts_of-Keeps :
    (default : Url) (name tunnel : Bytes) (tm : TunnelMap)
    → HasDefault default tm
    → Keeps default (hosts_of name tunnel tm)
hosts_of-Keeps default name tunnel tm h = elim (Bool-cases (bytes_eq name star)) [
  | inl all ↦
      rw all (add_hosts-Keeps default tunnel content_hostname_by_store tm content-AreHosts h)
  | inr one ↦ rw one (elim (Option-cases (find content_hostname_by_store name)) [
    | inl gone ↦ rw gone (tm, refl, h)
    | inr (hostname, known) ↦ rw known (
        set_host-Keeps default tunnel hostname tm
          (find-AreHosts content_hostname_by_store name content-AreHosts known) h)
  ])
]

add_stores-Keeps :
    (default : Url) (entries : List Bytes) (stc : StoreTunnelConfigMap) (tm : TunnelMap)
    → HasDefault default tm
    → (stc' : StoreTunnelConfigMap) × (tm' : TunnelMap) × (add_stores entries stc tm
        ≡ some (stc', tm'))
      × HasDefault default tm'
unfolding add_stores
add_stores-Keeps default [] stc tm h = (stc, tm, refl, h)
add_stores-Keeps default (entry ∷ entries) stc tm h = elim (Option-cases (cut entry b':')) [
  | inl bad ↦ rw (bad, add_stores) (add_stores-Keeps default entries stc tm h)
  | inr ((name, tunnel), good) ↦
      let (tm', e, h') = hosts_of-Keeps default name tunnel tm h in
      rw (good, add_stores) (rw (e, add_stores) (add_stores-Keeps default entries _ tm' h'))
]

-- Parsing the store tunnels of a map with a default proxy never panics, and leaves that proxy.
pub parse_store_tunnel-HasDefault :
    (text : Bytes) (default : Url) (tm : TunnelMap)
    → HasDefault default tm
    → (stc : StoreTunnelConfigMap) × (tm' : TunnelMap) × (parse_store_tunnel text tm
        ≡ some (stc, tm'))
      × HasDefault default tm'
unfolding parse_store_tunnel
parse_store_tunnel-HasDefault text default tm h = add_stores-Keeps default (fields text) [] tm h
