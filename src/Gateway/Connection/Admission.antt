-- ===== src/Gateway/Connection/Admission.antt =====
-- internal/gateway/agent_handler.go: an accepted agent's tunnel has its connection.
use tunneledge.Common.{
  Text, ℕ, ◌≡◌, refl, false, List, [], Option, none, some, Bool-cases, inl, inr, text_eq_refl,
}
use tunneledge.Common.Maps.{Dict, get, put, get-put}
use tunneledge.Domain.{Lease}
use tunneledge.Domain.TunnelId.{TunnelRoute, ActiveTunnel, new_active_tunnel}
use tunneledge.Errs.{GoError, Result, ok, err}
use tunneledge.Gateway.Connection.{Ending, closed, serves}
use tunneledge.Gateway.Handshake.{Settings, Calls, Accepted}
use tunneledge.Gateway.Handshake.V1.{handle_v1_auth, authenticated_v1, leased_v1, replied_v1}
use tunneledge.Gateway.Handshake.V2.{
  handle_v2_auth, authenticated_v2, over_quota, routed_v2, leased_v2, replied_v2,
}
use tunneledge.Gateway.Router.{TunnelRouter}
use tunneledge.Gateway.Tunnels.{Gateway, GatewayTunnel, add_tunnel}
use tunneledge.Gateway.Handshake.{Registered, register_labels}
use tunneledge.Transport.Messages.{AuthMessage, AuthV2Message, AuthV2ResponseMessage}

-- The tunnel has the connection and is not suspended.
abbrev pub Holds : ℕ → Option GatewayTunnel → Type 0
Holds conn none = ⊥
Holds conn (some at) = at.conn ≡ some conn × at.suspended ≡ false

-- The loops run only for a tunnel of the table that has the connection.
abbrev pub Serves : {Raw : Type 0} → ℕ → Gateway Raw → Ending → Type 0
Serves conn g (closed reason) = Unit
Serves conn g (serves id) = Holds conn (get g.tunnels id)

abbrev pub Accepts : {Raw : Type 0} → ℕ → Gateway Raw → Result Accepted → Type 0
Accepts conn g (err e) = Unit
Accepts conn g (ok a) = Holds conn (get g.tunnels a.tunnel_id)

pub put-Holds :
    (m : Dict GatewayTunnel) (conn : ℕ) (id : Text) (at : GatewayTunnel)
    → Holds conn (some at)
    → Holds conn (get (put m id at) id)
put-Holds m conn id at h = rw (get-put m id id at, text_eq_refl) h

module _ {Raw : Type 0} (cfg : Settings) (calls : Calls) (conn : ℕ) where
  replied_v1-Accepts :
      (g : Gateway Raw) (r : TunnelRouter) (tunnel : ActiveTunnel) (lease : Lease) (url : Text)
      (o : Option GoError)
      → let h = replied_v1 cfg calls g r tunnel conn lease url o in Accepts conn h.gateway h.result
  unfolding add_tunnel
  replied_v1-Accepts g r tunnel lease url (some e) = tt
  replied_v1-Accepts g r tunnel lease url none = put-Holds g.tunnels conn tunnel.id _ (refl, refl)

  leased_v1-Accepts :
      (g : Gateway Raw) (r : TunnelRouter) (tunnel : ActiveTunnel) (url : Text) (o : Result Lease)
      → let h = leased_v1 cfg calls g r tunnel conn url o in Accepts conn h.gateway h.result
  leased_v1-Accepts g r tunnel url (err e) = tt
  leased_v1-Accepts g r tunnel url (ok lease) = replied_v1-Accepts g r tunnel lease url _

  authenticated_v1-Accepts :
      (g : Gateway Raw) (o : Result Text)
      → let h = authenticated_v1 cfg calls g conn o in Accepts conn h.gateway h.result
  authenticated_v1-Accepts g (err e) = tt
  authenticated_v1-Accepts g (ok agent) =
      leased_v1-Accepts g _ (new_active_tunnel calls.now agent _) _ _

  pub handle_v1_auth-Accepts :
      (g : Gateway Raw) (m : Result AuthMessage)
      → let h = handle_v1_auth cfg calls g conn m in Accepts conn h.gateway h.result
  unfolding handle_v1_auth
  handle_v1_auth-Accepts g (err e) = tt
  handle_v1_auth-Accepts g (ok m) = authenticated_v1-Accepts g (calls.authenticate m.token)

  replied_v2-Accepts :
      (g : Gateway Raw) (tunnel : ActiveTunnel) (lease : Lease) (token : Text) (reg : Registered)
      (reply : AuthV2ResponseMessage) (o : Option GoError)
      → let h = replied_v2 cfg calls g tunnel conn lease token reg reply o in
        Accepts conn h.gateway h.result
  unfolding add_tunnel
  replied_v2-Accepts g tunnel lease token reg reply (some e) = tt
  replied_v2-Accepts g tunnel lease token reg reply none =
      put-Holds g.tunnels conn tunnel.id _ (refl, refl)

  leased_v2-Accepts :
      (g : Gateway Raw) (m : AuthV2Message) (tunnel : ActiveTunnel) (o : Result Lease)
      → let h = leased_v2 cfg calls g m tunnel conn o in Accepts conn h.gateway h.result
  leased_v2-Accepts g m tunnel (err e) = tt
  leased_v2-Accepts g m tunnel (ok lease) =
      replied_v2-Accepts g tunnel lease _
        (register_labels cfg.public_port tunnel.id g.router [] m.tunnels) _ _

  routed_v2-Accepts :
      (g : Gateway Raw) (m : AuthV2Message) (agent : Text) (o : Result (List TunnelRoute))
      → let h = routed_v2 cfg calls g m agent conn o in Accepts conn h.gateway h.result
  routed_v2-Accepts g m agent (err e) = tt
  routed_v2-Accepts g m agent (ok routes) =
      leased_v2-Accepts g m (new_active_tunnel calls.now agent routes) _

  authenticated_v2-Accepts :
      (g : Gateway Raw) (m : AuthV2Message) (o : Result Text)
      → let h = authenticated_v2 cfg calls g m conn o in Accepts conn h.gateway h.result
  authenticated_v2-Accepts g m (err e) = tt
  authenticated_v2-Accepts g m (ok agent) = elim (Bool-cases (over_quota cfg calls g agent)) [
    | inl e ↦ rw e tt
    | inr e ↦ rw e (routed_v2-Accepts g m agent _)
  ]

  pub handle_v2_auth-Accepts :
      (g : Gateway Raw) (m : Result AuthV2Message)
      → let h = handle_v2_auth cfg calls g conn m in Accepts conn h.gateway h.result
  unfolding handle_v2_auth
  handle_v2_auth-Accepts g (err e) = tt
  handle_v2_auth-Accepts g (ok m) = authenticated_v2-Accepts g m (calls.authenticate m.token)
