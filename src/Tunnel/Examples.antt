-- ===== src/Tunnel/Examples.antt =====
-- The repository's own runs of the tunnel map, and runs over a store.
use resolver_addon.Prelude.{◌≡◌, refl, [], ◌∷◌, Option, none, some}
use resolver_addon.Prelude.Assoc.{find, store}
use resolver_addon.Prelude.Bytes.{Bytes, codes, bytes_eq, split}
use resolver_addon.Tunnel.{Url, TunnelMap, star, cut, parent, get_proxy}
use resolver_addon.Tunnel.Parse.{Env, parse_tunnel}
use resolver_addon.Tunnel.Proxy.{proxy, get_proxy_lem, get_proxy-parent}
use resolver_addon.Tunnel.Stores.{
  StoreTunnelConfigMap, parse_store_tunnel, HasDefault, parse_store_tunnel-HasDefault,
}

abbrev local : Bytes
local = codes "http://127.0.0.1:1080"

-- A parser that takes every text as a url with a host.
abbrev parse_url : Bytes → Option Url
parse_url text = some (record { host = codes "host"; text = text })

abbrev local_url : Url
local_url = record { host = codes "host"; text = local }

abbrev warp_url : Url
warp_url = record { host = codes "host"; text = codes "http://warp:1080" }

abbrev env : Env
env = record { http_proxy = none; https_proxy = none; no_proxy = none }

abbrev setting_text : Bytes
setting_text = codes "*:false,x.y:true,j.k:http://warp:1080"

abbrev default_off : TunnelMap
default_off = (star, local_url) ∷ (codes "x.y", local_url) ∷ (codes "j.k", warp_url) ∷ []

-- TestDefaultOff
default_off-parse_tunnel : parse_tunnel parse_url local local setting_text env ≡ (
  record { http_proxy = some local; https_proxy = some local; no_proxy = some star },
  default_off,
)
unfolding parse_tunnel split cut bytes_eq store
default_off-parse_tunnel = refl

kept_for_host :
    get_proxy default_off (codes "a.x.y")
    ≡ (store default_off (codes "a.x.y") local_url, some local_url)
unfolding get_proxy find bytes_eq parent
kept_for_host = refl

get_proxy_example :
    ((get_proxy default_off (codes "a.x.y")).1 ≡ proxy default_off (codes "a.x.y"))
    × ((host : Bytes)
        → proxy (get_proxy default_off (codes "a.x.y")).0 host ≡ proxy default_off host)
get_proxy_example = get_proxy_lem default_off (codes "a.x.y")

get_proxy-parent_example :
    (get_proxy default_off (codes "a.x.y")).1 ≡ (get_proxy default_off (codes "x.y")).1
unfolding find bytes_eq parent
get_proxy-parent_example = get_proxy-parent default_off (codes "a.x.y")

abbrev stores_text : Bytes
stores_text = codes "*:true,torbox:api"

parse_store_tunnel-HasDefault_example :
    (stc : StoreTunnelConfigMap) × (tm : TunnelMap) × (parse_store_tunnel stores_text default_off
      ≡ some (stc, tm))
    × HasDefault local_url tm
unfolding find bytes_eq
parse_store_tunnel-HasDefault_example =
    parse_store_tunnel-HasDefault stores_text local_url default_off refl
