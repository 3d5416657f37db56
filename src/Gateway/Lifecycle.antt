-- ===== src/Gateway/Lifecycle.antt =====
-- The moves that agents, timers and the shutdown make on a gateway's tables, and that they keep the
-- tables sound.
pub mod Removal
pub mod Arrival
pub mod Resume
use tunneledge.Common.{
  Text, ℕ, ◌+◌, ◌≡◌, refl, List, [], ◌∷◌, Option, none, some, codes, Bool-cases, inl, inr,
}
use tunneledge.Common.Maps.{get, remove, keys}
use tunneledge.Domain.{Session, Lease}
use tunneledge.Domain.TunnelId.{TunnelRoute, ActiveTunnel, new_active_tunnel}
use tunneledge.Errs.{GoError, Result, ok, err}
use tunneledge.Gateway.Router.{TunnelRouter, lookup_with_label, register, new_router}
use tunneledge.Gateway.Tunnels.{
  Gateway, GatewayTunnel, take_down, remove_tunnel, finalize_tunnel_removal, suspend_tunnel,
  remove_each, close_all_tunnels, handle_session_resume, add_tunnel, stored, store_token, suspend,
  suspend_found, with_repository, renew_token, attach, resume_found, resume_in,
}
use tunneledge.Gateway.Handshake.{Settings, Calls, register_labels, routes_of}
use tunneledge.Gateway.Handshake.V1.{replied_v1, leased_v1, authenticated_v1, handle_v1_auth}
use tunneledge.Gateway.Handshake.V2.{
  replied_v2, leased_v2, routed_v2, over_quota, authenticated_v2, handle_v2_auth,
}
use tunneledge.Gateway.Handshake.Served.{
  IsSound, LeadsOr, LeadsOr-weaken, LeadsOr-put, Leads-put, IsAttached-put, IsAttached-remove,
  deregister_all-Leads, removed-Leads, register_labels-LeadsOr, deregister-Leads, register-LeadsOr,
}
use tunneledge.Store.Sessions.{Repository, get_resumable, set_resumable}
use tunneledge.Transport.Messages.{AuthMessage, AuthV2Message, AuthV2ResponseMessage}
use tunneledge.Gateway.Lifecycle.Removal.{
  remove_tunnel-IsSound, finalize_tunnel_removal-IsSound, close_all_tunnels-IsSound,
  suspend_tunnel-IsSound,
}
use tunneledge.Gateway.Lifecycle.Arrival.{
  handle_session_resume-IsSound, handle_v1_auth-IsSound, handle_v2_auth-IsSound,
}

abbrev pub new_gateway : {Raw : Type 0} → Text → Option Repository → Gateway Raw
new_gateway domain sessions = record {
  tunnels = [];
  router = new_router domain;
  streams = [];
  timers = [];
  sessions = sessions;
}

pub new_gateway-IsSound :
    {Raw : Type 0} (domain : Text) (sessions : Option Repository)
    → IsSound {Raw = Raw} (new_gateway domain sessions)
unfolding get
new_gateway-IsSound domain sessions = record { served = λ host. tt; attached = λ id. tt }

-- The gateways that agents, timers and the shutdown can lead to.
pub data Reach {Raw : Type 0} (close_raw : Raw → Option GoError) (cfg : Settings)
    : Gateway Raw → Type 0 where
  started :
      (domain : Text) (sessions : Option Repository)
      → Reach close_raw cfg (new_gateway domain sessions)
  authenticated_by_v1 :
      (g : Gateway Raw) (calls : Calls) (conn : ℕ) (m : Result AuthMessage)
      → Reach close_raw cfg g
      → Reach close_raw cfg (handle_v1_auth cfg calls g conn m).gateway
  authenticated_by_v2 :
      (g : Gateway Raw) (calls : Calls) (conn : ℕ) (m : Result AuthV2Message)
      → Reach close_raw cfg g
      → Reach close_raw cfg (handle_v2_auth cfg calls g conn m).gateway
  resumes :
      (g : Gateway Raw) (resume_token : Text) (now : ℕ) (token : Option Text) (conn : ℕ)
      → Reach close_raw cfg g
      → Reach close_raw cfg
          (handle_session_resume g resume_token cfg.session_resume_ttl now token conn).0
  suspends :
      (g : Gateway Raw) (id reason : Text) (now : ℕ) (token : Option Text)
      → Reach close_raw cfg g
      → Reach close_raw cfg
          (suspend_tunnel close_raw g id reason cfg.session_resume_ttl now token).0
  removes :
      (g : Gateway Raw) (id reason : Text)
      → Reach close_raw cfg g
      → Reach close_raw cfg (remove_tunnel close_raw g id reason).0
  times_out :
      (g : Gateway Raw) (id reason : Text)
      → Reach close_raw cfg g
      → Reach close_raw cfg (finalize_tunnel_removal close_raw g id reason).0
  shuts_down :
      (g : Gateway Raw)
      → Reach close_raw cfg g
      → Reach close_raw cfg (close_all_tunnels close_raw g).0

-- In every gateway that the handlers, the timers and the shutdown can lead to, each of their methods
-- taken as one step, every host name of the router leads to a tunnel in the table, and a tunnel is
-- suspended exactly while it has no connection.
pub Reach-IsSound :
    {Raw : Type 0} (close_raw : Raw → Option GoError) (cfg : Settings) (g : Gateway Raw)
    → Reach close_raw cfg g
    → IsSound g
Reach-IsSound close_raw cfg _ (started domain sessions) = new_gateway-IsSound domain sessions
Reach-IsSound close_raw cfg _ (authenticated_by_v1 g calls conn m r) =
    handle_v1_auth-IsSound cfg calls g conn m (Reach-IsSound close_raw cfg g r)
Reach-IsSound close_raw cfg _ (authenticated_by_v2 g calls conn m r) =
    handle_v2_auth-IsSound cfg calls g conn m (Reach-IsSound close_raw cfg g r)
Reach-IsSound close_raw cfg _ (resumes g resume_token now token conn r) =
    handle_session_resume-IsSound g resume_token cfg.session_resume_ttl now token conn
      (Reach-IsSound close_raw cfg g r)
Reach-IsSound close_raw cfg _ (suspends g id reason now token r) =
    suspend_tunnel-IsSound close_raw g id reason cfg.session_resume_ttl now token
      (Reach-IsSound close_raw cfg g r)
Reach-IsSound close_raw cfg _ (removes g id reason r) =
    remove_tunnel-IsSound close_raw g id reason (Reach-IsSound close_raw cfg g r)
Reach-IsSound close_raw cfg _ (times_out g id reason r) =
    finalize_tunnel_removal-IsSound close_raw g id reason (Reach-IsSound close_raw cfg g r)
Reach-IsSound close_raw cfg _ (shuts_down g r) =
    close_all_tunnels-IsSound close_raw g (Reach-IsSound close_raw cfg g r)
