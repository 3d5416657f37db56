-- ===== src/Gateway/Router/Lookup.antt =====
-- What a router looks up after each of its operations.
use tunneledge.Common.{Text, ◌≡◌, ◌≢◌, ◌↔◌, not, some, text_eq, text_eq_iff, if◌then◌else◌, arith}
use tunneledge.Common.Maps.{get, retain, kept, get-put, get-retain}
use tunneledge.Gateway.Router.{
  RouteKey, TunnelRouter, hostname_for_label, register_label, deregister_all, lookup_with_label,
}

-- After RegisterLabel the returned host name leads to the tunnel and the label, and every other host
-- name leads where it did.
pub lookup-register_label :
    (r : TunnelRouter) (t l host : Text)
    → let (r', new) = register_label r t l in
      lookup_with_label r' host ≡ (
        if text_eq new host
        then some (record { tunnel_id = t; label = l })
        else lookup_with_label r host)
unfolding register_label
lookup-register_label r t l host =
    get-put r.host_map (hostname_for_label r.domain t l) host (record { tunnel_id = t; label = l })

-- DeregisterAll removes the host names of the tunnel, whatever their labels, and no others.
pub lookup-deregister_all :
    (r : TunnelRouter) (t host : Text) (key : RouteKey)
    → (lookup_with_label (deregister_all r t) host ≡ some key)
      ↔ ((lookup_with_label r host ≡ some key) × (key.tunnel_id ≢ t))
unfolding deregister_all
lookup-deregister_all r t host key = (
  λ h. (
    ground (arith, law, text_eq_iff key.tunnel_id t),
    λ e. ground (arith, law, text_eq_iff key.tunnel_id t),
  ),
  λ h. ground (arith, law, text_eq_iff key.tunnel_id t, h.1),
)
  where
    law :
        get (retain (λ host key. not (text_eq key.tunnel_id t)) r.host_map) host
        ≡ kept (λ host key. not (text_eq key.tunnel_id t)) host (get r.host_map host)
    law = get-retain (λ host key. not (text_eq key.tunnel_id t)) r.host_map host
