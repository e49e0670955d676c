-- ===== src/Tunnel.antt =====
-- internal/config/http.go: which proxy a host is reached through. A url is its host and its text;
-- what parses one (url.Parse) is a parameter, and so is the proxy of the environment.
pub mod Proxy
pub mod Parse
pub mod Stores
pub mod Examples
unfoldable pub use resolver_addon.Prelude.Affix.{cut}
use resolver_addon.Prelude.{
  ℕ, zero, suc, ◌+◌, Bool, true, false, not, ◌&&◌, ◌||◌, List, [], ◌∷◌, Option, none, some, ◌==◌,
  if◌then◌else◌, length,
}
use resolver_addon.Prelude.Assoc.{Assoc, find, store}
use resolver_addon.Prelude.Bytes.{Bytes, codes, bytes_eq, split}

pub record Url : Type 0 where
  pub host : Bytes
  pub text : Bytes

-- url.URL{}
abbrev pub no_url : Url
no_url = record { host = []; text = [] }

abbrev pub TunnelMap : Type 0
TunnelMap = Assoc Url

pub data TunnelType : Type 0 where
  type_none auto forced : TunnelType

abbrev pub star : Bytes
star = codes "*"

-- `_, hn, _ = strings.Cut(hn, ".")`
unfoldable pub parent : Bytes → Bytes
parent [] = []
parent (c ∷ hn) = let later = parent hn in if c == b'.' then hn else later

abbrev pub is_empty : Bytes → Bool
is_empty [] = true
is_empty (c ∷ s) = false

-- The loop of getProxy with `n` rounds left: the name that is in the map, and its proxy.
unfoldable pub search : TunnelMap → ℕ → Bytes → Option (Bytes × Url)
search tm zero hn = none
search tm (suc n) hn =
    let later = search tm n (parent hn) in
    elim (find tm hn) [
      | some proxy ↦ some (hn, proxy)
      | none ↦ if is_empty (parent hn) then none else later
    ]

-- Each round drops a part of the name.
abbrev pub rounds : Bytes → ℕ
rounds hostname = suc (length hostname)

-- A proxy that was found under another name is kept under this one.
unfoldable pub get_proxy : TunnelMap → Bytes → TunnelMap × Option Url
unfolding search
get_proxy tm hostname = elim (search tm (rounds hostname) hostname) [
  | none ↦ (tm, none)
  | some (hn, proxy) ↦ (if bytes_eq hn hostname then tm else store tm hostname proxy, some proxy)
]

-- hasProxy
unfoldable pub has_proxy : TunnelMap → Bool
has_proxy [] = false
has_proxy ((name, proxy) ∷ tm) = not (is_empty proxy.host) || has_proxy tm

-- proxy != nil && proxy.Host != ""
abbrev pub with_host : Option Url → Option Url
with_host none = none
with_host (some proxy) = if is_empty proxy.host then none else some proxy

-- "" where there is no host
unfoldable pub default_proxy_host : TunnelMap → Bytes
unfolding get_proxy
default_proxy_host tm = elim (with_host (get_proxy tm star).1) [
  | none ↦ []
  | some proxy ↦ proxy.host
]

-- `from_environment` is http.ProxyFromEnvironment.
unfoldable pub auto_proxy : (Bytes → Option Url) → TunnelMap → Bytes → TunnelMap × Option Url
unfolding get_proxy
auto_proxy from_environment tm hostname =
    let (tm', proxy) = get_proxy tm hostname in
    (tm', elim proxy [ none ↦ from_environment hostname | some p ↦ with_host (some p) ])

unfoldable pub forced_proxy : TunnelMap → Bytes → TunnelMap × Option Url
unfolding get_proxy
forced_proxy tm hostname =
    let (tm', proxy) = get_proxy tm hostname in
    let (tm'', default) = get_proxy tm' star in
    elim (with_host proxy) [ some p ↦ (tm', some p) | none ↦ (tm'', with_host default) ]
