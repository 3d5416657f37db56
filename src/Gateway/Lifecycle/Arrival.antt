-- ===== src/Gateway/Lifecycle/Arrival.antt =====
-- The handlers of internal/gateway/agent_handler.go that let an agent in keep the tables sound.
use tunneledge.Common.{Text, ℕ, ◌+◌, refl, List, [], Option, none, some, Bool-cases, inl, inr}
use tunneledge.Common.Maps.{get}
use tunneledge.Domain.{Session, Lease}
use tunneledge.Domain.TunnelId.{TunnelRoute, ActiveTunnel, new_active_tunnel}
use tunneledge.Errs.{GoError, Result, ok, err}
use tunneledge.Gateway.Router.{TunnelRouter, lookup_with_label, register}
use tunneledge.Gateway.Tunnels.{
  Gateway, GatewayTunnel, handle_session_resume, add_tunnel, with_repository, renew_token, attach,
  resume_found, resume_in,
}
use tunneledge.Gateway.Handshake.{Settings, Calls, register_labels, routes_of}
use tunneledge.Gateway.Handshake.V1.{replied_v1, leased_v1, authenticated_v1, handle_v1_auth}
use tunneledge.Gateway.Handshake.V2.{
  replied_v2, leased_v2, routed_v2, over_quota, authenticated_v2, handle_v2_auth,
}
use tunneledge.Gateway.Handshake.Served.{
  IsSound, LeadsOr, LeadsOr-weaken, LeadsOr-put, Leads-put, IsAttached-put, deregister_all-Leads,
  register_labels-LeadsOr, deregister-Leads, register-LeadsOr,
}
use tunneledge.Store.Sessions.{Repository, get_resumable, set_resumable}
use tunneledge.Transport.Messages.{AuthMessage, AuthV2Message, AuthV2ResponseMessage}

module _ {Raw : Type 0} where
  with_repository-IsSound :
      (g : Gateway Raw) (id token : Text) (o : Repository × Result (Unit {0}))
      → IsSound g
      → IsSound (with_repository g id token o).0
  with_repository-IsSound g id token (repo, err e) s = record {
    served = s.served;
    attached = s.attached;
  }
  with_repository-IsSound g id token (repo, ok u) s = record {
    served = s.served;
    attached = s.attached;
  }

  renew_token-IsSound :
      (g : Gateway Raw) (repo : Repository) (id : Text) (ttl now : ℕ) (token : Option Text)
      → IsSound g
      → IsSound (renew_token g repo id ttl now token).0
  renew_token-IsSound g repo id ttl now none s = s
  renew_token-IsSound g repo id ttl now (some token) s =
      with_repository-IsSound g id token (set_resumable repo id token (now + ttl)) s

  attach-IsSound :
      (g : Gateway Raw) (repo : Repository) (id : Text) (ttl now : ℕ) (token : Option Text)
      (conn : ℕ) (o : Option GatewayTunnel)
      → IsSound g
      → IsSound (attach g repo id ttl now token conn o).0
  attach-IsSound g repo id ttl now token conn none s = s
  attach-IsSound g repo id ttl now token conn (some at) s =
      renew_token-IsSound _ repo id ttl now token (record {
        served = λ host. Leads-put g.tunnels id _ (lookup_with_label g.router host) (s.served host);
        attached = λ j. IsAttached-put g.tunnels id j _ refl (s.attached j);
      })

  resume_found-IsSound :
      (g : Gateway Raw) (repo : Repository) (ttl now : ℕ) (token : Option Text) (conn : ℕ)
      (o : Result Session)
      → IsSound g
      → IsSound (resume_found g repo ttl now token conn o).0
  resume_found-IsSound g repo ttl now token conn (err e) s = s
  resume_found-IsSound g repo ttl now token conn (ok found) s =
      attach-IsSound _ repo found.tunnel_id ttl now token conn (get g.tunnels found.tunnel_id)
        (record { served = s.served; attached = s.attached })

  resume_in-IsSound :
      (g : Gateway Raw) (resume_token : Text) (ttl now : ℕ) (token : Option Text) (conn : ℕ)
      (o : Option Repository)
      → IsSound g
      → IsSound (resume_in g resume_token ttl now token conn o).0
  resume_in-IsSound g resume_token ttl now token conn none s = s
  resume_in-IsSound g resume_token ttl now token conn (some repo) s =
      resume_found-IsSound g repo ttl now token conn (get_resumable repo now resume_token) s

  pub handle_session_resume-IsSound :
      (g : Gateway Raw) (resume_token : Text) (ttl now : ℕ) (token : Option Text) (conn : ℕ)
      → IsSound g
      → IsSound (handle_session_resume g resume_token ttl now token conn).0
  unfolding handle_session_resume
  handle_session_resume-IsSound g resume_token ttl now token conn s =
      resume_in-IsSound g resume_token ttl now token conn g.sessions s

  -- A new tunnel whose host names are the router's.
  add_tunnel-IsSound :
      (g : Gateway Raw) (r : TunnelRouter) (tunnel : ActiveTunnel) (conn : ℕ) (lease_id : Text)
      → IsSound g
      → ((host : Text) → LeadsOr g.tunnels tunnel.id (lookup_with_label r host))
      → IsSound (add_tunnel (record g { router = r }) tunnel conn lease_id)
  unfolding add_tunnel
  add_tunnel-IsSound g r tunnel conn lease_id s h = record {
    served = λ host. LeadsOr-put g.tunnels tunnel.id _ (lookup_with_label r host) (h host);
    attached = λ j. IsAttached-put g.tunnels tunnel.id j _ refl (s.attached j);
  }

  module _ (cfg : Settings) (calls : Calls) where
    replied_v1-IsSound :
        (g : Gateway Raw) (tunnel : ActiveTunnel) (conn : ℕ) (lease : Lease) (url : Text)
        (o : Option GoError)
        → IsSound g
        → IsSound
            (replied_v1 cfg calls g (register g.router tunnel.id).0 tunnel conn lease url o).gateway
    replied_v1-IsSound g tunnel conn lease url (some e) s = record {
      served = λ host. deregister-Leads g.tunnels g.router tunnel.id host (s.served host);
      attached = s.attached;
    }
    replied_v1-IsSound g tunnel conn lease url none s =
        add_tunnel-IsSound g _ (record tunnel { public_hosts = _ }) conn lease.lease_id s
          λ host.
            register-LeadsOr g.tunnels g.router tunnel.id host
              (LeadsOr-weaken g.tunnels tunnel.id (lookup_with_label g.router host) (s.served host))

    leased_v1-IsSound :
        (g : Gateway Raw) (tunnel : ActiveTunnel) (conn : ℕ) (url : Text) (o : Result Lease)
        → IsSound g
        → IsSound (leased_v1 cfg calls g (register g.router tunnel.id).0 tunnel conn url o).gateway
    leased_v1-IsSound g tunnel conn url (err e) s = record {
      served = λ host. deregister-Leads g.tunnels g.router tunnel.id host (s.served host);
      attached = s.attached;
    }
    leased_v1-IsSound g tunnel conn url (ok lease) s =
        replied_v1-IsSound g tunnel conn lease url _ s

    authenticated_v1-IsSound :
        (g : Gateway Raw) (conn : ℕ) (o : Result Text)
        → IsSound g
        → IsSound (authenticated_v1 cfg calls g conn o).gateway
    authenticated_v1-IsSound g conn (err e) s = s
    authenticated_v1-IsSound g conn (ok agent) s =
        leased_v1-IsSound g (new_active_tunnel calls.now agent _) conn _ _ s

    pub handle_v1_auth-IsSound :
        (g : Gateway Raw) (conn : ℕ) (m : Result AuthMessage)
        → IsSound g
        → IsSound (handle_v1_auth cfg calls g conn m).gateway
    unfolding handle_v1_auth
    handle_v1_auth-IsSound g conn (err e) s = s
    handle_v1_auth-IsSound g conn (ok m) s =
        authenticated_v1-IsSound g conn (calls.authenticate m.token) s

    labelled :
        (g : Gateway Raw) (m : AuthV2Message) (id : Text)
        → IsSound g
        → (host : Text)
        → LeadsOr g.tunnels id (
            lookup_with_label
              (register_labels cfg.public_port id g.router [] m.tunnels).router
              host)
    labelled g m id s host =
        register_labels-LeadsOr g.tunnels cfg.public_port id g.router [] m.tunnels host
          λ name. LeadsOr-weaken g.tunnels id (lookup_with_label g.router name) (s.served name)

    replied_v2-IsSound :
        (g : Gateway Raw) (m : AuthV2Message) (tunnel : ActiveTunnel) (conn : ℕ) (lease : Lease)
        (token : Text) (reply : AuthV2ResponseMessage) (o : Option GoError)
        → IsSound g
        → IsSound
            (replied_v2 cfg calls g tunnel conn lease token
              (register_labels cfg.public_port tunnel.id g.router [] m.tunnels)
              reply
              o).gateway
    replied_v2-IsSound g m tunnel conn lease token reply (some e) s = record {
      served =
          λ host. deregister_all-Leads g.tunnels _ tunnel.id host (labelled g m tunnel.id s host);
      attached = s.attached;
    }
    replied_v2-IsSound g m tunnel conn lease token reply none s =
        let added =
          add_tunnel-IsSound g _ (record tunnel { public_hosts = _ }) conn lease.lease_id s
            (labelled g m tunnel.id s) in
        record { served = added.served; attached = added.attached }

    leased_v2-IsSound :
        (g : Gateway Raw) (m : AuthV2Message) (tunnel : ActiveTunnel) (conn : ℕ) (o : Result Lease)
        → IsSound g
        → IsSound (leased_v2 cfg calls g m tunnel conn o).gateway
    leased_v2-IsSound g m tunnel conn (err e) s = s
    leased_v2-IsSound g m tunnel conn (ok lease) s =
        replied_v2-IsSound g m tunnel conn lease _ _ _ s

    routed_v2-IsSound :
        (g : Gateway Raw) (m : AuthV2Message) (agent : Text) (conn : ℕ)
        (o : Result (List TunnelRoute))
        → IsSound g
        → IsSound (routed_v2 cfg calls g m agent conn o).gateway
    routed_v2-IsSound g m agent conn (err e) s = s
    routed_v2-IsSound g m agent conn (ok routes) s =
        leased_v2-IsSound g m (new_active_tunnel calls.now agent routes) conn _ s

    authenticated_v2-IsSound :
        (g : Gateway Raw) (m : AuthV2Message) (conn : ℕ) (o : Result Text)
        → IsSound g
        → IsSound (authenticated_v2 cfg calls g m conn o).gateway
    authenticated_v2-IsSound g m conn (err e) s = s
    authenticated_v2-IsSound g m conn (ok agent) s =
        elim (Bool-cases (over_quota cfg calls g agent)) [
          | inl e ↦ rw e s
          | inr e ↦ rw e (routed_v2-IsSound g m agent conn (routes_of m.tunnels) s)
        ]

    pub handle_v2_auth-IsSound :
        (g : Gateway Raw) (conn : ℕ) (m : Result AuthV2Message)
        → IsSound g
        → IsSound (handle_v2_auth cfg calls g conn m).gateway
    unfolding handle_v2_auth
    handle_v2_auth-IsSound g conn (err e) s = s
    handle_v2_auth-IsSound g conn (ok m) s =
        authenticated_v2-IsSound g m conn (calls.authenticate m.token) s
