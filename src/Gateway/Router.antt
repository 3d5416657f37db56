-- ===== src/Gateway/Router.antt =====
-- internal/gateway/router.go: TunnelRouter, the host names of the tunnels that this gateway serves.
pub mod Lookup
pub mod Hostnames
use tunneledge.Common.{
  Text, Bool, true, false, not, List, [], ◌∷◌, ◌++◌, Option, none, some, codes, text_eq, ◌==◌,
  if◌then◌else◌,
}
use tunneledge.Common.Maps
use tunneledge.Common.Maps.{Dict, get, put, remove, retain}

-- routeKey
pub record RouteKey : Type 0 where
  pub tunnel_id : Text
  pub label : Text

pub record TunnelRouter : Type 0 where
  pub host_map : Dict RouteKey
  pub domain : Text

-- NewTunnelRouter
abbrev pub new_router : Text → TunnelRouter
new_router domain = record { host_map = []; domain = domain }

-- strings.TrimPrefix(s, p)
unfoldable pub strip : Text → Text → Option Text
strip [] s = some s
strip (c ∷ p) [] = none
strip (c ∷ p) (d ∷ s) = let rest = strip p s in if c == d then rest else none

abbrev pub or_else : Option Text → Text → Text
or_else none s = s
or_else (some t) s = t

unfoldable pub trim_prefix : Text → Text → Text
unfolding strip
trim_prefix s p = or_else (strip p s) s

-- HostnameForTunnel
unfoldable pub hostname_for_tunnel : Text → Text → Text
unfolding trim_prefix
hostname_for_tunnel domain tunnel_id = trim_prefix tunnel_id (codes "t-") ++ (codes "." ++ domain)

-- HostnameForLabel
unfoldable pub hostname_for_label : Text → Text → Text → Text
unfolding trim_prefix
hostname_for_label domain tunnel_id label =
    label ++ (codes "-" ++ (trim_prefix tunnel_id (codes "t-") ++ (codes "." ++ domain)))

-- Register
unfoldable pub register : TunnelRouter → Text → TunnelRouter × Text
register r tunnel_id =
    let hostname = hostname_for_tunnel r.domain tunnel_id in
    (
      record r {
        host_map =
            put r.host_map hostname (record { tunnel_id = tunnel_id; label = codes "default" });
      },
      hostname,
    )

-- RegisterLabel
unfoldable pub register_label : TunnelRouter → Text → Text → TunnelRouter × Text
register_label r tunnel_id label =
    let hostname = hostname_for_label r.domain tunnel_id label in
    (
      record r {
        host_map = put r.host_map hostname (record { tunnel_id = tunnel_id; label = label });
      },
      hostname,
    )

-- Deregister
unfoldable pub deregister : TunnelRouter → Text → TunnelRouter
deregister r tunnel_id = record r {
  host_map = remove r.host_map (hostname_for_tunnel r.domain tunnel_id);
}

-- DeregisterLabel
unfoldable pub deregister_label : TunnelRouter → Text → Text → TunnelRouter
deregister_label r tunnel_id label = record r {
  host_map = remove r.host_map (hostname_for_label r.domain tunnel_id label);
}

-- DeregisterAll
unfoldable pub deregister_all : TunnelRouter → Text → TunnelRouter
deregister_all r tunnel_id = record r {
  host_map = retain (λ host key. not (text_eq key.tunnel_id tunnel_id)) r.host_map;
}

-- LookupWithLabel
abbrev pub lookup_with_label : TunnelRouter → Text → Option RouteKey
lookup_with_label r hostname = get r.host_map hostname

-- Lookup and TunnelIDForHost
unfoldable pub lookup : TunnelRouter → Text → Option Text
lookup r hostname = elim (get r.host_map hostname) [ none ↦ none | some key ↦ some key.tunnel_id ]

-- HasHostname
unfoldable pub has_hostname : TunnelRouter → Text → Bool
unfolding lookup
has_hostname r hostname = elim (lookup r hostname) [ none ↦ false | some t ↦ true ]
