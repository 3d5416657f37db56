-- ===== src/Gateway/Tunnels.antt =====
-- internal/gateway/gateway.go and agent_handler.go: the gateway's table of tunnels, and how a tunnel is
-- added, suspended, resumed and removed. Each function stands for one call with nothing between its
-- critical sections. A QUIC connection is a number; what the gateway asks of a connection, of a timer
-- and of the registry is a list of effects, in the order of the calls.
use tunneledge.Common.{
  Text, ℕ, ◌+◌, suc, Bool, true, false, List, [], ◌∷◌, ◌++◌, Option, none, some, codes, is_empty,
  text_eq, if◌then◌else◌,
}
use tunneledge.Common.Maps.{Dict, get, put, remove, keys}
use tunneledge.Domain.{Session}
use tunneledge.Domain.TunnelId
use tunneledge.Domain.TunnelId.{ActiveTunnel}
use tunneledge.Errs.{GoError, Result, ok, err}
use tunneledge.Gateway.Router.{TunnelRouter, deregister_all}
use tunneledge.Store.Sessions.{Repository, get_resumable, set_resumable}
use tunneledge.Streams.{Manager}
use tunneledge.Streams
use tunneledge.Transport.Messages.{
  SessionResumeRespMessage, resume_status_resumed, resume_status_expired, resume_status_not_found,
}

-- activeTunnel
pub record GatewayTunnel : Type 0 where
  pub tunnel : ActiveTunnel
  pub conn : Option ℕ
  pub route_map : Dict Text
  pub lease_id : Text
  pub suspended : Bool

-- The fields of Gateway that change. `timers` are the keys of pendingResumeTimers.
pub record Gateway (Raw : Type 0) : Type 0 where
  pub tunnels : Dict GatewayTunnel
  pub router : TunnelRouter
  pub streams : Manager Raw
  pub timers : Dict (Unit {0})
  pub sessions : Option Repository

pub data Effect : Type 0 where
  closes_conn : ℕ → Text → Effect
  releases_lease : Text → Effect
  deregisters_tunnel : Text → Effect
  starts_timer : Text → ℕ → Effect
  stops_timer : Text → Effect
  crashes : Effect

-- if at.conn != nil { at.conn.CloseWithError(0, reason) }
abbrev closing : Option ℕ → Text → List Effect
closing none reason = []
closing (some conn) reason = closes_conn conn reason ∷ []

-- if at.leaseID != "" { ReleaseLease }
abbrev releasing : Text → List Effect
releasing lease_id = if is_empty lease_id then [] else releases_lease lease_id ∷ []

abbrev stopping : Text → Option (Unit {0}) → List Effect
stopping id none = []
stopping id (some t) = stops_timer id ∷ []

abbrev pub refused : ℕ → SessionResumeRespMessage
refused status = record { status = status; tunnel_id = []; new_token = [] }

-- The loop of countTunnelsByAgent
unfoldable pub count_by_agent : Dict GatewayTunnel → Text → ℕ
count_by_agent [] agent = 0
count_by_agent ((id, at) ∷ m) agent =
    let rest = count_by_agent m agent in if text_eq at.tunnel.agent_id agent then suc rest else rest

module _ {Raw : Type 0} where
  -- addTunnel
  unfoldable pub add_tunnel : Gateway Raw → ActiveTunnel → ℕ → Text → Gateway Raw
  add_tunnel g tunnel conn lease_id = record g {
    tunnels = put g.tunnels tunnel.id (record {
      tunnel = tunnel;
      conn = some conn;
      route_map = TunnelId.route_map tunnel.routes;
      lease_id = lease_id;
      suspended = false;
    });
  }

  -- getTunnel
  abbrev pub get_tunnel : Gateway Raw → Text → Option GatewayTunnel
  get_tunnel g id = get g.tunnels id

  -- countTunnelsByAgent
  abbrev pub count_tunnels_by_agent : Gateway Raw → Text → ℕ
  count_tunnels_by_agent g agent = count_by_agent g.tunnels agent

module _ {Raw : Type 0} (close_raw : Raw → Option GoError) where
  -- removeTunnel after its look-up, and the same lines of finalizeTunnelRemoval
  unfoldable pub take_down :
      Gateway Raw → Text → Text → Option GatewayTunnel → Gateway Raw × List Effect
  take_down g id reason none = (g, [])
  take_down g id reason (some at) = (
    record g {
      tunnels = remove g.tunnels id;
      router = deregister_all g.router id;
      streams = (Streams.close_by_tunnel close_raw g.streams id).0;
    },
    closing at.conn reason ++ (releasing at.lease_id ++ (deregisters_tunnel id ∷ [])),
  )

  -- removeTunnel
  unfoldable pub remove_tunnel : Gateway Raw → Text → Text → Gateway Raw × List Effect
  unfolding take_down
  remove_tunnel g id reason = take_down g id reason (get g.tunnels id)

  -- finalizeTunnelRemoval
  unfoldable pub finalize_tunnel_removal : Gateway Raw → Text → Text → Gateway Raw × List Effect
  unfolding take_down
  finalize_tunnel_removal g id reason =
      let (g', effects) =
        take_down (record g { timers = remove g.timers id }) id reason (get g.tunnels id) in
      (g', stopping id (get g.timers id) ++ effects)

  -- suspendTunnel from SetResumable on; g.sessionRepo is not nil where suspendTunnel is called
  abbrev pub stored :
      Gateway Raw → Text → Text → ℕ → Repository × Result (Unit {0}) → Gateway Raw × List Effect
  stored g id reason ttl (repo, err e) = remove_tunnel (record g { sessions = some repo }) id reason
  stored g id reason ttl (repo, ok u) =
      (record g { sessions = some repo; timers = put g.timers id tt }, starts_timer id ttl ∷ [])

  abbrev pub store_token :
      Gateway Raw → Text → Text → ℕ → ℕ → Text → Option Repository → Gateway Raw × List Effect
  store_token g id reason ttl now token none = (g, crashes ∷ [])
  store_token g id reason ttl now token (some repo) =
      stored g id reason ttl (set_resumable repo id token (now + ttl))

  -- suspendTunnel with a tunnel and a token: closing a connection that is nil crashes
  abbrev pub suspend :
      Gateway Raw
      → Text
      → Text
      → ℕ
      → ℕ
      → Text
      → GatewayTunnel
      → Option ℕ
      → Gateway Raw × List Effect
  suspend g id reason ttl now token at none = (g, crashes ∷ [])
  suspend g id reason ttl now token at (some conn) =
      let marked = record g {
        tunnels = put g.tunnels id (record at { conn = none; suspended = true });
        streams = (Streams.close_by_tunnel close_raw g.streams id).0;
      } in
      let (g', effects) = store_token marked id reason ttl now token g.sessions in
      (g', closes_conn conn reason ∷ effects)

  abbrev pub suspend_found :
      Gateway Raw
      → Text
      → Text
      → ℕ
      → ℕ
      → Option Text
      → Option GatewayTunnel
      → Gateway Raw × List Effect
  suspend_found g id reason ttl now token none = (g, [])
  suspend_found g id reason ttl now none (some at) = remove_tunnel g id reason
  suspend_found g id reason ttl now (some token) (some at) =
      suspend g id reason ttl now token at at.conn

  -- suspendTunnel: `token` is what generateResumeToken returns, `none` for its error
  unfoldable pub suspend_tunnel :
      Gateway Raw → Text → Text → ℕ → ℕ → Option Text → Gateway Raw × List Effect
  unfolding remove_tunnel
  suspend_tunnel g id reason ttl now token =
      suspend_found g id reason ttl now token (get g.tunnels id)

  -- The loop of closeAll over the IDs
  unfoldable pub remove_each : Gateway Raw → List Text → Gateway Raw × List Effect
  unfolding remove_tunnel
  remove_each g [] = (g, [])
  remove_each g (id ∷ ids) =
      let (g', effects) = remove_tunnel g id (codes "shutdown") in
      let (last, others) = remove_each g' ids in (last, effects ++ others)

  -- closeAll
  unfoldable pub close_all_tunnels : Gateway Raw → Gateway Raw × List Effect
  unfolding remove_each
  close_all_tunnels g =
      let (g', effects) = remove_each g (keys g.tunnels) in
      (record g' { streams = (Streams.close_all close_raw g'.streams).0 }, effects)

abbrev resumed : Text → Text → SessionResumeRespMessage
resumed id token = record { status = resume_status_resumed; tunnel_id = id; new_token = token }

module _ {Raw : Type 0} where
  abbrev pub with_repository :
      Gateway Raw
      → Text
      → Text
      → Repository × Result (Unit {0})
      → Gateway Raw × SessionResumeRespMessage
  with_repository g id token (repo, err e) = (record g { sessions = some repo }, resumed id [])
  with_repository g id token (repo, ok u) = (record g { sessions = some repo }, resumed id token)

  -- The new token is stored; what is not stored is not sent.
  abbrev pub renew_token :
      Gateway Raw → Repository → Text → ℕ → ℕ → Option Text → Gateway Raw × SessionResumeRespMessage
  renew_token g repo id ttl now none = (g, resumed id [])
  renew_token g repo id ttl now (some token) =
      with_repository g id token (set_resumable repo id token (now + ttl))

  abbrev pub attach :
      Gateway Raw
      → Repository
      → Text
      → ℕ
      → ℕ
      → Option Text
      → ℕ
      → Option GatewayTunnel
      → Gateway Raw × SessionResumeRespMessage
  attach g repo id ttl now token conn none = (g, refused resume_status_not_found)
  attach g repo id ttl now token conn (some at) =
      renew_token
        (record g {
          tunnels = put g.tunnels id (record at { conn = some conn; suspended = false });
        })
        repo id ttl now token

  abbrev pub resume_found :
      Gateway Raw
      → Repository
      → ℕ
      → ℕ
      → Option Text
      → ℕ
      → Result Session
      → Gateway Raw × SessionResumeRespMessage × List Effect
  resume_found g repo ttl now token conn (err e) = (g, refused resume_status_expired, [])
  resume_found g repo ttl now token conn (ok s) =
      let (g', reply) =
        attach (record g { timers = remove g.timers s.tunnel_id }) repo s.tunnel_id ttl now token
          conn (get g.tunnels s.tunnel_id) in
      (g', reply, stopping s.tunnel_id (get g.timers s.tunnel_id))

  abbrev pub resume_in :
      Gateway Raw
      → Text
      → ℕ
      → ℕ
      → Option Text
      → ℕ
      → Option Repository
      → Gateway Raw × SessionResumeRespMessage × List Effect
  resume_in g resume_token ttl now token conn none = (g, refused resume_status_not_found, [])
  resume_in g resume_token ttl now token conn (some repo) =
      resume_found g repo ttl now token conn (get_resumable repo now resume_token)

  -- handleSessionResume from the decoded frame to its reply: `token` is what generateResumeToken
  -- returns and `conn` the new connection. The reply is resumed exactly where the caller goes on to the
  -- tunnel's loops.
  unfoldable pub handle_session_resume :
      Gateway Raw
      → Text
      → ℕ
      → ℕ
      → Option Text
      → ℕ
      → Gateway Raw × SessionResumeRespMessage × List Effect
  handle_session_resume g resume_token ttl now token conn =
      resume_in g resume_token ttl now token conn g.sessions
