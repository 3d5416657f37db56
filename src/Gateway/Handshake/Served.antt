-- ===== src/Gateway/Handshake/Served.antt =====
-- The invariant of the gateway's tables: each host name leads to a tunnel in the table, and a tunnel is
-- suspended exactly while it has no connection.
use tunneledge.Common.{
  Text, ℕ, ◌≡◌, sym, subst, Bool, true, false, not, ◌||◌, List, [], ◌∷◌, Option, none, some, codes,
  text_eq, text_eq_iff, text_eq_refl, arith, Bool-cases, inl, inr,
}
use tunneledge.Common.Maps.{Dict, get, put, remove, kept, get-put, get-remove, get-retain}
use tunneledge.Gateway.Router.{
  RouteKey, TunnelRouter, hostname_for_tunnel, hostname_for_label, register, register_label,
  deregister, deregister_all, lookup_with_label,
}
use tunneledge.Gateway.Tunnels.{Gateway, GatewayTunnel}
use tunneledge.Gateway.Handshake.{register_labels}
use tunneledge.Transport.Messages.{TunnelEntry}

abbrev pub present : Option GatewayTunnel → Bool
present none = false
present (some at) = true

abbrev pub absent_conn : Option ℕ → Bool
absent_conn none = true
absent_conn (some conn) = false

-- The route leads to a tunnel of the table.
abbrev pub Leads : Dict GatewayTunnel → Option RouteKey → Type 0
Leads m none = Unit
Leads m (some key) = present (get m key.tunnel_id) ≡ true

-- The same, or it leads to the tunnel that is being set up.
abbrev pub LeadsOr : Dict GatewayTunnel → Text → Option RouteKey → Type 0
LeadsOr m id none = Unit
LeadsOr m id (some key) = present (get m key.tunnel_id) || text_eq key.tunnel_id id ≡ true

abbrev pub IsAttached : Option GatewayTunnel → Type 0
IsAttached none = Unit
IsAttached (some at) = at.suspended ≡ absent_conn at.conn

pub record IsSound {Raw : Type 0} (g : Gateway Raw) : Type 0 where
  pub served : (host : Text) → Leads g.tunnels (lookup_with_label g.router host)
  pub attached : (id : Text) → IsAttached (get g.tunnels id)

module _ (m : Dict GatewayTunnel) where
  pub LeadsOr-weaken : (id : Text) (o : Option RouteKey) → Leads m o → LeadsOr m id o
  LeadsOr-weaken id none h = tt
  LeadsOr-weaken id (some key) h = ground (arith, h)

  pub LeadsOr-put :
      (id : Text) (at : GatewayTunnel) (o : Option RouteKey)
      → LeadsOr m id o
      → Leads (put m id at) o
  LeadsOr-put id at none h = tt
  LeadsOr-put id at (some key) h = ground (
    arith,
    h,
    get-put m id key.tunnel_id at,
    text_eq_iff key.tunnel_id id,
    text_eq_iff id key.tunnel_id,
  )

  pub Leads-put :
      (id : Text) (at : GatewayTunnel) (o : Option RouteKey) → Leads m o → Leads (put m id at) o
  Leads-put id at o h = LeadsOr-put id at o (LeadsOr-weaken id o h)

  pub IsAttached-put :
      (id j : Text) (at : GatewayTunnel)
      → IsAttached (some at)
      → IsAttached (get m j)
      → IsAttached (get (put m id at) j)
  IsAttached-put id j at new old = elim (Bool-cases (text_eq id j)) [
    | inl e ↦ rw (get-put m id j at, e) new
    | inr e ↦ rw (get-put m id j at, e) old
  ]

  pub IsAttached-remove : (id j : Text) → IsAttached (get m j) → IsAttached (get (remove m id) j)
  IsAttached-remove id j old = elim (Bool-cases (text_eq id j)) [
    | inl e ↦ rw (get-remove m id j, e) tt
    | inr e ↦ rw (get-remove m id j, e) old
  ]

  -- The routes left by DeregisterAll are not the tunnel's.
  kept-Leads :
      (id host : Text) (o : Option RouteKey)
      → LeadsOr m id o
      → Leads m (kept (λ host key. not (text_eq key.tunnel_id id)) host o)
  kept-Leads id host none h = tt
  kept-Leads id host (some key) h = elim (Bool-cases (text_eq key.tunnel_id id)) [
    | inl e ↦ rw e tt
    | inr e ↦ rw e (ground (arith, h, e))
  ]

  pub deregister_all-Leads :
      (r : TunnelRouter) (id host : Text)
      → LeadsOr m id (lookup_with_label r host)
      → Leads m (lookup_with_label (deregister_all r id) host)
  unfolding deregister_all
  deregister_all-Leads r id host h =
      subst (Leads m)
        (sym (get-retain (λ host key. not (text_eq key.tunnel_id id)) r.host_map host))
        (kept-Leads id host (lookup_with_label r host) h)

  kept-removed :
      (id host : Text) (o : Option RouteKey)
      → Leads m o
      → Leads (remove m id) (kept (λ host key. not (text_eq key.tunnel_id id)) host o)
  kept-removed id host none h = tt
  kept-removed id host (some key) h = elim (Bool-cases (text_eq key.tunnel_id id)) [
    | inl e ↦ rw e tt
    | inr e ↦ rw e (
        ground (
          arith,
          h,
          e,
          get-remove m id key.tunnel_id,
          text_eq_iff id key.tunnel_id,
          text_eq_iff key.tunnel_id id,
        ))
  ]

  -- A tunnel that goes takes its routes with it.
  pub removed-Leads :
      (r : TunnelRouter) (id host : Text)
      → Leads m (lookup_with_label r host)
      → Leads (remove m id) (lookup_with_label (deregister_all r id) host)
  unfolding deregister_all
  removed-Leads r id host h =
      subst (Leads (remove m id))
        (sym (get-retain (λ host key. not (text_eq key.tunnel_id id)) r.host_map host))
        (kept-removed id host (lookup_with_label r host) h)

  put-LeadsOr :
      (r : TunnelRouter) (id label new host : Text)
      → LeadsOr m id (lookup_with_label r host)
      → LeadsOr m id (get (put r.host_map new (record { tunnel_id = id; label = label })) host)
  put-LeadsOr r id label new host h = elim (Bool-cases (text_eq new host)) [
    | inl e ↦
        rw (get-put r.host_map new host (record { tunnel_id = id; label = label }), e)
          (ground (arith, text_eq_refl id))
    | inr e ↦ rw (get-put r.host_map new host (record { tunnel_id = id; label = label }), e) h
  ]

  pub register_labels-LeadsOr :
      (port id : Text) (r : TunnelRouter) (hosts : Dict Text) (ts : List TunnelEntry) (host : Text)
      → ((name : Text) → LeadsOr m id (lookup_with_label r name))
      → LeadsOr m id (lookup_with_label (register_labels port id r hosts ts).router host)
  unfolding register_labels register_label
  register_labels-LeadsOr port id r hosts [] host h = h host
  register_labels-LeadsOr port id r hosts (t ∷ ts) host h =
      register_labels-LeadsOr port id (register_label r id t.label).0 _ ts host
        λ name. put-LeadsOr r id t.label (hostname_for_label r.domain id t.label) name (h name)

  -- The default host name registered and deregistered again.
  pub deregister-Leads :
      (r : TunnelRouter) (id host : Text)
      → Leads m (lookup_with_label r host)
      → Leads m (lookup_with_label (deregister (register r id).0 id) host)
  unfolding deregister register
  deregister-Leads r id host h = elim (Bool-cases (text_eq name host)) [
    | inl e ↦ rw (get-remove (put r.host_map name key) name host, e) tt
    | inr e ↦
        rw (get-remove (put r.host_map name key) name host, e)
          (rw (get-put r.host_map name host key, e) h)
  ]
    where
      name : Text
      name = hostname_for_tunnel r.domain id

      key : RouteKey
      key = record { tunnel_id = id; label = codes "default" }

  pub register-LeadsOr :
      (r : TunnelRouter) (id host : Text)
      → LeadsOr m id (lookup_with_label r host)
      → LeadsOr m id (lookup_with_label (register r id).0 host)
  unfolding register
  register-LeadsOr r id host h =
      put-LeadsOr r id (codes "default") (hostname_for_tunnel r.domain id) host h
