-- ===== src/Gateway/Handshake/V2.antt =====
-- internal/gateway/agent_handler.go: handleV2Auth.
use tunneledge.Common.{
  Text, ℕ, ◌+◌, Bool, List, [], ◌∷◌, Option, none, some, leb, ltb, ◌&&◌, if◌then◌else◌,
}
use tunneledge.Domain.{Lease}
use tunneledge.Domain.TunnelId.{TunnelRoute, ActiveTunnel, new_active_tunnel}
use tunneledge.Errs.{GoError, plain, Result, ok, err}
use tunneledge.Gateway.Router.{TunnelRouter, deregister_all}
use tunneledge.Gateway.Tunnels.{Gateway, releases_lease, add_tunnel, count_tunnels_by_agent}
use tunneledge.Transport.Messages.{AuthV2Message, AuthV2ResponseMessage, auth_status_ok}
use tunneledge.Transport.EncodeV2.{encode_auth_v2_response}
use tunneledge.Gateway.Handshake.{
  Settings, v2, Handled, Calls, Registered, sending, rejected_v1, rejected_v2, v2_message,
  routes_of, register_labels, join, store_resume, token_for, suggested, refusal,
}

module _ {Raw : Type 0} (cfg : Settings) (calls : Calls) where
  -- The reply could not be sent: the host names and the lease are given back.
  abbrev pub unsent_v2 : Gateway Raw → TunnelRouter → Text → Lease → GoError → Handled Raw
  unsent_v2 g r id lease e = record {
    gateway = record g { router = deregister_all r id };
    replies = [];
    effects = releases_lease lease.lease_id ∷ [];
    result = err e;
  }

  abbrev pub established_v2 :
      Gateway Raw
      → ActiveTunnel
      → ℕ
      → Lease
      → Text
      → Registered
      → AuthV2ResponseMessage
      → Handled Raw
  established_v2 g tunnel conn lease token reg reply =
      let g' =
        add_tunnel (record g { router = reg.router }) (record tunnel { public_hosts = reg.hosts })
          conn lease.lease_id in
      record {
        gateway = record g' {
          sessions = store_resume tunnel.id token (calls.now + cfg.session_resume_ttl) g'.sessions;
        };
        replies = v2 reply ∷ [];
        effects = [];
        result = ok (record {
          agent_id = tunnel.agent_id;
          tunnel_id = tunnel.id;
          public_addr = join reg.public_parts;
          local_addr = join reg.local_parts;
        });
      }

  abbrev pub replied_v2 :
      Gateway Raw
      → ActiveTunnel
      → ℕ
      → Lease
      → Text
      → Registered
      → AuthV2ResponseMessage
      → Option GoError
      → Handled Raw
  replied_v2 g tunnel conn lease token reg reply (some e) = unsent_v2 g reg.router tunnel.id lease e
  replied_v2 g tunnel conn lease token reg reply none =
      established_v2 g tunnel conn lease token reg reply

  abbrev pub leased_v2 : Gateway Raw → AuthV2Message → ActiveTunnel → ℕ → Result Lease → Handled Raw
  leased_v2 g m tunnel conn (err e) = refusal g rejected_v2 e
  leased_v2 g m tunnel conn (ok lease) =
      let reg = register_labels cfg.public_port tunnel.id g.router [] m.tunnels in
      let token = token_for cfg calls g.sessions in
      let reply =
        v2_message auth_status_ok tunnel.id reg.entries token cfg.region
          (suggested calls m.preferred_region) in
      replied_v2 g tunnel conn lease token reg reply
        (sending calls.write (encode_auth_v2_response reply))

  abbrev pub routed_v2 :
      Gateway Raw → AuthV2Message → Text → ℕ → Result (List TunnelRoute) → Handled Raw
  routed_v2 g m agent conn (err e) = refusal g rejected_v2 e
  routed_v2 g m agent conn (ok routes) =
      let tunnel = new_active_tunnel calls.now agent routes in
      leased_v2 g m tunnel conn (calls.acquire_lease tunnel.id)

  abbrev pub over_quota : Gateway Raw → Text → Bool
  over_quota g agent =
      ltb 0 cfg.max_tunnels_per_agent
      && leb cfg.max_tunnels_per_agent (count_tunnels_by_agent g agent)

  abbrev pub authenticated_v2 : Gateway Raw → AuthV2Message → ℕ → Result Text → Handled Raw
  authenticated_v2 g m conn (err e) = refusal g rejected_v1 e
  authenticated_v2 g m conn (ok agent) =
      if over_quota g agent
      then refusal g rejected_v2 (plain "tunnel quota exceeded for agent %s" (agent ∷ []))
      else routed_v2 g m agent conn (routes_of m.tunnels)

  -- handleV2Auth, on what DecodeAuthV2 returned
  unfoldable pub handle_v2_auth : Gateway Raw → ℕ → Result AuthV2Message → Handled Raw
  unfolding routes_of register_labels
  handle_v2_auth g conn (err e) = refusal g rejected_v1 e
  handle_v2_auth g conn (ok m) = authenticated_v2 g m conn (calls.authenticate m.token)
