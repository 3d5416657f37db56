-- ===== src/Agent/Session/Agreed.antt =====
-- internal/gateway/agent_handler.go and internal/agent/agent.go: what the two sides of a V2 handshake keep.
use tunneledge.Common.{
  Text, ℕ, ◌≡◌, refl, List, [], ◌∷◌, Option, none, some, text_eq_refl, Bool-cases, inl, inr,
}
use tunneledge.Common.Maps.{Dict, get, get-put}
use tunneledge.Agent.Session.{Agent, urls_of, learn, accepted_v2}
use tunneledge.Domain.{Lease}
use tunneledge.Domain.TunnelId.{TunnelRoute, ActiveTunnel, new_active_tunnel}
use tunneledge.Errs.{GoError, Result, ok, err}
use tunneledge.Gateway.Handshake.{
  Settings, Calls, Reply, v1, v2, Accepted, register_labels, routes_of, v2_message,
}
use tunneledge.Gateway.Handshake.V2.{
  handle_v2_auth, replied_v2, leased_v2, routed_v2, over_quota, authenticated_v2,
}
use tunneledge.Gateway.Router.{TunnelRouter, register_label}
use tunneledge.Gateway.Tunnels.{Gateway, GatewayTunnel, add_tunnel}
use tunneledge.Transport.Messages.{AuthV2Message, TunnelEntry, auth_status_ok}

-- The agent entered its stream loop with the tunnel's ID and URLs.
abbrev pub SameTunnel : Option GatewayTunnel → Agent × Result (Unit {0}) → Type 0
SameTunnel none out = ⊥
SameTunnel (some at) (a, err e) = ⊥
SameTunnel (some at) (a, ok u) = a.tunnel_id ≡ at.tunnel.id × a.public_urls ≡ at.tunnel.public_hosts

abbrev pub OneReply : Agent → Option GatewayTunnel → List Reply → Type 0
OneReply a o [] = ⊥
OneReply a o (v1 m ∷ rest) = ⊥
OneReply a o (v2 m ∷ []) = SameTunnel o (accepted_v2 a (ok m))
OneReply a o (v2 m ∷ (next ∷ rest)) = ⊥

-- Where the handler accepts, it has sent one reply, which leaves the agent with the tunnel in the table.
abbrev pub Agrees : {Raw : Type 0} → Agent → Gateway Raw → List Reply → Result Accepted → Type 0
Agrees a g replies (err e) = Unit
Agrees a g replies (ok accepted) = OneReply a (get g.tunnels accepted.tunnel_id) replies

urls_of-register_labels :
    (port id : Text) (r : TunnelRouter) (hosts : Dict Text) (ts : List TunnelEntry)
    → urls_of hosts (register_labels port id r hosts ts).entries
      ≡ (register_labels port id r hosts ts).hosts
unfolding urls_of register_labels register_label
urls_of-register_labels port id r hosts [] = refl
urls_of-register_labels port id r hosts (t ∷ ts) =
    urls_of-register_labels port id (register_label r id t.label).0 _ ts

module _ {Raw : Type 0} (cfg : Settings) (calls : Calls) (a : Agent) where
  replied_v2-Agrees :
      (g : Gateway Raw) (m : AuthV2Message) (tunnel : ActiveTunnel) (conn : ℕ) (lease : Lease)
      (token region : Text) (gateways : List Text) (o : Option GoError)
      → let reg = register_labels cfg.public_port tunnel.id g.router [] m.tunnels in
        let h =
          replied_v2 cfg calls g tunnel conn lease token reg
            (v2_message auth_status_ok tunnel.id reg.entries token region gateways)
            o in
        Agrees a h.gateway h.replies h.result
  unfolding learn add_tunnel
  replied_v2-Agrees g m tunnel conn lease token region gateways (some e) = tt
  replied_v2-Agrees g m tunnel conn lease token region gateways none =
      rw (get-put g.tunnels tunnel.id tunnel.id _, text_eq_refl)
        (refl, urls_of-register_labels cfg.public_port tunnel.id g.router [] m.tunnels)

  leased_v2-Agrees :
      (g : Gateway Raw) (m : AuthV2Message) (tunnel : ActiveTunnel) (conn : ℕ) (o : Result Lease)
      → let h = leased_v2 cfg calls g m tunnel conn o in Agrees a h.gateway h.replies h.result
  leased_v2-Agrees g m tunnel conn (err e) = tt
  leased_v2-Agrees g m tunnel conn (ok lease) =
      replied_v2-Agrees g m tunnel conn lease _ cfg.region _ _

  routed_v2-Agrees :
      (g : Gateway Raw) (m : AuthV2Message) (agent : Text) (conn : ℕ)
      (o : Result (List TunnelRoute))
      → let h = routed_v2 cfg calls g m agent conn o in Agrees a h.gateway h.replies h.result
  routed_v2-Agrees g m agent conn (err e) = tt
  routed_v2-Agrees g m agent conn (ok routes) =
      leased_v2-Agrees g m (new_active_tunnel calls.now agent routes) conn _

  authenticated_v2-Agrees :
      (g : Gateway Raw) (m : AuthV2Message) (conn : ℕ) (o : Result Text)
      → let h = authenticated_v2 cfg calls g m conn o in Agrees a h.gateway h.replies h.result
  authenticated_v2-Agrees g m conn (err e) = tt
  authenticated_v2-Agrees g m conn (ok agent) = elim (Bool-cases (over_quota cfg calls g agent)) [
    | inl e ↦ rw e tt
    | inr e ↦ rw e (routed_v2-Agrees g m agent conn (routes_of m.tunnels))
  ]

  -- Where handleV2Auth accepts an agent, it has sent one reply, and an agent that reads this reply enters its
  -- stream loop with the ID of a tunnel in the gateway's table and with that tunnel's public URLs.
  pub handle_v2_auth-Agrees :
      (g : Gateway Raw) (conn : ℕ) (m : Result AuthV2Message)
      → let h = handle_v2_auth cfg calls g conn m in Agrees a h.gateway h.replies h.result
  unfolding handle_v2_auth
  handle_v2_auth-Agrees g conn (err e) = tt
  handle_v2_auth-Agrees g conn (ok m) =
      authenticated_v2-Agrees g m conn (calls.authenticate m.token)
