-- ===== src/Gateway/Handshake/V1.antt =====
-- internal/gateway/agent_handler.go: handleV1Auth.
use tunneledge.Common.{Text, ℕ, [], ◌∷◌, Option, none, some, codes}
use tunneledge.Common.Maps.{put}
use tunneledge.Domain.{Lease}
use tunneledge.Domain.TunnelId.{ActiveTunnel, new_active_tunnel}
use tunneledge.Errs.{GoError, Result, ok, err}
use tunneledge.Gateway.Router.{TunnelRouter, register, deregister}
use tunneledge.Gateway.Tunnels.{Gateway, releases_lease, add_tunnel}
use tunneledge.Transport.Messages.{AuthMessage, auth_status_ok}
use tunneledge.Transport.Encode.{encode_auth_response}
use tunneledge.Gateway.Handshake.{
  Settings, v1, Handled, Calls, sending, rejected_v1, public_url, refusal,
}

module _ {Raw : Type 0} (cfg : Settings) (calls : Calls) where
  abbrev pub replied_v1 :
      Gateway Raw → TunnelRouter → ActiveTunnel → ℕ → Lease → Text → Option GoError → Handled Raw
  replied_v1 g r tunnel conn lease url (some e) = record {
    gateway = record g { router = deregister r tunnel.id };
    replies = [];
    effects = releases_lease lease.lease_id ∷ [];
    result = err e;
  }
  replied_v1 g r tunnel conn lease url none = record {
    gateway =
        add_tunnel (record g { router = r })
          (record tunnel { public_hosts = put [] (codes "default") url }) conn lease.lease_id;
    replies = v1 (record { status = auth_status_ok; tunnel_id = tunnel.id; public_url = url }) ∷ [];
    effects = [];
    result = ok (record {
      agent_id = tunnel.agent_id;
      tunnel_id = tunnel.id;
      public_addr = url;
      local_addr = [];
    });
  }

  abbrev pub leased_v1 :
      Gateway Raw → TunnelRouter → ActiveTunnel → ℕ → Text → Result Lease → Handled Raw
  leased_v1 g r tunnel conn url (err e) =
      refusal (record g { router = deregister r tunnel.id }) rejected_v1 e
  leased_v1 g r tunnel conn url (ok lease) =
      replied_v1 g r tunnel conn lease url
        (sending calls.write (encode_auth_response auth_status_ok tunnel.id url))

  abbrev pub authenticated_v1 : Gateway Raw → ℕ → Result Text → Handled Raw
  authenticated_v1 g conn (err e) = refusal g rejected_v1 e
  authenticated_v1 g conn (ok agent) =
      let tunnel =
        new_active_tunnel calls.now agent
          (record { label = codes "default"; local_addr = []; tunnel_type = [] } ∷ []) in
      let (r, hostname) = register g.router tunnel.id in
      leased_v1 g r tunnel conn (public_url cfg.public_port hostname)
        (calls.acquire_lease tunnel.id)

  -- handleV1Auth, on what DecodeAuth returned
  unfoldable pub handle_v1_auth : Gateway Raw → ℕ → Result AuthMessage → Handled Raw
  handle_v1_auth g conn (err e) = refusal g rejected_v1 e
  handle_v1_auth g conn (ok m) = authenticated_v1 g conn (calls.authenticate m.token)
