-- ===== src/Registry/Server.antt =====
-- internal/registry/server.go: Server over the in-memory store and coordinator. `now` is what time.Now
-- returns in the call. GetTunnel and ListTunnels write the owner into the sessions that the store
-- hands out, which are the store's own.
pub mod Started
pub mod Seconds
use tunneledge.Common.{
  Text, ℕ, ℤ, pos, negsuc, zero, suc, wrap_int64, ◌*◌, ◌%◌, ◌^◌, ◌==◌, Bool, true, false, List, [],
  ◌∷◌, ◌++◌, Option, none, some, is_empty, leb, ◌-◌, ◌||◌, if◌then◌else◌,
}
use tunneledge.Common.Maps.{Dict, get, put}
use tunneledge.Domain.{
  Session, Lease, LeaseRequest, RelayHealth, RegistryEvent, tunnel_upserted, tunnel_deleted,
}
use tunneledge.Errs.{
  GoError, Result, ok, err, rpc, rpc_already_exists, rpc_not_found, rpc_invalid_argument,
}
use tunneledge.Registry.Coordinator.{
  MemCoordinator, publish, current_lease, acquire_lease, renew_lease, release_lease,
  report_relay_health, release_expired_leases,
}
use tunneledge.Registry.Coordinator.Snapshot.{snapshot, skips, matches_domain_event}
use tunneledge.Registry.Wire.{
  TunnelMessage, LeaseMessage, lease_message, HealthMessage, WatchResponse, second, tunnel_message,
  domain_event_to_proto, response, watch_tunnel_upserted, session_to_proto,
}
use tunneledge.Registry.Wire.Received.{reported_health}
use tunneledge.Store.Sessions.{
  Repository, stamped, register_session, deregister_session, get_session, list_sessions, heartbeat,
  cleanup_expired,
}

-- Server
pub record Server : Type 0 where
  pub store : Repository
  pub coord : MemCoordinator

-- if lease != nil { sess.OwnerRelayID = lease.RelayID; sess.LeaseID = lease.LeaseID }
abbrev pub owned : Option Lease → Session → Session
owned none s = s
owned (some l) s = record s { owner_relay_id = l.relay_id; lease_id = l.lease_id }

abbrev pub tunnel_event : Session → RegistryEvent
tunnel_event s = record {
  type = tunnel_upserted;
  tunnel = some s;
  lease = none;
  relay = none;
  health = none;
}

-- The session of a request, before its owner is known
abbrev pub requested : Text → Text → Text → Text → Session
requested tunnel_id agent_id public_addr local_addr = record {
  tunnel_id = tunnel_id;
  agent_id = agent_id;
  owner_relay_id = [];
  lease_id = [];
  public_addr = public_addr;
  local_addr = local_addr;
  remote_addr = [];
  created_at = 0;
  last_heartbeat = 0;
  resume_token = [];
  resume_deadline = none;
}

abbrev pub registered :
    MemCoordinator → ℕ → Session → Repository × Result (Unit {0}) → Server × Result (Text × Text)
registered coord now s (store, err e) = (
  record { store = store; coord = coord },
  err (rpc rpc_already_exists "tunnel %s already registered" (s.tunnel_id ∷ [])),
)
registered coord now s (store, ok u) = (
  record { store = store; coord = publish (tunnel_event (stamped now s)) coord },
  ok (s.tunnel_id, s.public_addr),
)

-- RegisterTunnel
unfoldable pub register_tunnel : Session → ℕ → Server → Server × Result (Text × Text)
register_tunnel s now srv =
    let (coord, lease) = current_lease s.tunnel_id now srv.coord in
    let sess = owned lease s in registered coord now sess (register_session srv.store now sess)

abbrev pub deleted_event : Text → RegistryEvent
deleted_event id = record {
  type = tunnel_deleted;
  tunnel = some (requested id [] [] []);
  lease = none;
  relay = none;
  health = none;
}

abbrev pub deregistered :
    MemCoordinator → Text → Repository × Result (Unit {0}) → Server × Result (Unit {0})
deregistered coord id (store, err e) = (
  record { store = store; coord = coord },
  err (rpc rpc_not_found "tunnel %s not found" (id ∷ [])),
)
deregistered coord id (store, ok u) =
    (record { store = store; coord = publish (deleted_event id) coord }, ok tt)

-- DeregisterTunnel
unfoldable pub deregister_tunnel : Text → Server → Server × Result (Unit {0})
deregister_tunnel id srv = deregistered srv.coord id (deregister_session srv.store id)

-- The owner is written into the stored session, and the session into the response.
abbrev pub with_owner : Text → ℕ → Server → Session → Server × TunnelMessage
with_owner id now srv s =
    let (coord, lease) = current_lease s.tunnel_id now srv.coord in
    (
      record { store = put srv.store id (owned lease s); coord = coord },
      tunnel_message (owned lease s),
    )

abbrev pub got : Text → ℕ → Server → Result Session → Server × Result TunnelMessage
got id now srv (err e) = (srv, err (rpc rpc_not_found "tunnel %s not found" (id ∷ [])))
got id now srv (ok s) = let (srv', m) = with_owner id now srv s in (srv', ok m)

-- GetTunnel
unfoldable pub get_tunnel : Text → ℕ → Server → Server × Result TunnelMessage
get_tunnel id now srv = got id now srv (get_session srv.store id)

-- The loop of ListTunnels over the sessions of the store
unfoldable pub list_each : ℕ → Server → Dict Session → Server × List TunnelMessage
list_each now srv [] = (srv, [])
list_each now srv ((id, s) ∷ m) =
    let (srv', message) = with_owner id now srv s in
    let (last, messages) = list_each now srv' m in (last, message ∷ messages)

-- ListTunnels
unfoldable pub list_tunnels : ℕ → Server → Server × List TunnelMessage
unfolding list_each
list_tunnels now srv = list_each now srv srv.store

abbrev pub is_ok : {A : Type 0} → Result A → Bool
is_ok (ok a) = true
is_ok (err e) = false

-- Heartbeat: whether the tunnel is alive
unfoldable pub tunnel_heartbeat : Text → ℕ → Server → Server × Bool
tunnel_heartbeat id now srv =
    let (store, r) = heartbeat srv.store now id in (record srv { store = store }, is_ok r)

-- ttlFromSeconds: the product of two int64 wraps around.
abbrev pub ttl_from_seconds : ℤ → ℤ
ttl_from_seconds (pos zero) = pos (30 * second)
ttl_from_seconds (pos (suc n)) = wrap_int64 (suc n * second)
ttl_from_seconds (negsuc n) = pos (30 * second)

abbrev pub answered : Result Lease → Result LeaseMessage
answered (ok l) = ok (lease_message l)
answered (err e) = err e

abbrev pub acknowledged : {A : Type 0} → Result A → Result (Unit {0})
acknowledged (ok a) = ok tt
acknowledged (err e) = err e

-- AcquireLease
unfoldable pub serve_acquire : Text → Text → ℤ → ℕ → Text → Server → Server × Result LeaseMessage
serve_acquire tunnel_id relay_id seconds now fresh srv =
    let (coord, r) =
      acquire_lease
        (record { tunnel_id = tunnel_id; relay_id = relay_id; ttl = ttl_from_seconds seconds }) now
        fresh srv.coord in
    (record srv { coord = coord }, answered r)

-- RenewLease
unfoldable pub serve_renew : Text → ℤ → ℕ → Server → Server × Result LeaseMessage
serve_renew lease_id seconds now srv =
    let (coord, r) = renew_lease lease_id (ttl_from_seconds seconds) now srv.coord in
    (record srv { coord = coord }, answered r)

-- ReleaseLease
unfoldable pub serve_release : Text → Server → Server × Result (Unit {0})
serve_release lease_id srv =
    let (coord, r) = release_lease lease_id srv.coord in
    (record srv { coord = coord }, acknowledged r)

abbrev pub health_reported :
    Text → Text → ℕ → Server → Option RelayHealth → Server × Result (Unit {0})
health_reported relay_id advertise_addr now srv none =
    (srv, err (rpc rpc_invalid_argument "health is required" []))
health_reported relay_id advertise_addr now srv (some h) =
    let (coord, r) = report_relay_health relay_id advertise_addr h now srv.coord in
    (record srv { coord = coord }, acknowledged r)

-- ReportRelayHealth
unfoldable pub serve_health :
    Text → Text → Option HealthMessage → ℕ → Server → Server × Result (Unit {0})
serve_health relay_id advertise_addr health now srv =
    if is_empty relay_id
    then (srv, err (rpc rpc_invalid_argument "relay_id is required" []))
    else health_reported relay_id advertise_addr now srv (reported_health now health)

-- A tick of cleanupLoop
unfoldable pub clean_up : ℕ → ℕ → Server → Server
clean_up now ttl srv =
    let (coord, gone) = release_expired_leases now srv.coord in
    record { store = (cleanup_expired srv.store now ttl).0; coord = coord }

-- The first loop of sendSnapshot: each owner is written into the stored session.
unfoldable pub snapshot_sessions :
    Text → Text → ℕ → Server → Dict Session → Server × List RegistryEvent
snapshot_sessions tunnel relay now srv [] = (srv, [])
snapshot_sessions tunnel relay now srv ((id, s) ∷ m) =
    let (coord, lease) = current_lease s.tunnel_id now srv.coord in
    let srv' =
      if skips tunnel s.tunnel_id
      then srv
      else record { store = put srv.store id (owned lease s); coord = coord } in
    let (last, events) = snapshot_sessions tunnel relay now srv' m in
    (
      last,
      (if skips tunnel s.tunnel_id || skips relay (owned lease s).owner_relay_id
          then events
          else tunnel_event (owned lease s) ∷ events),
    )

-- sendSnapshot, as the events whose messages it sends
unfoldable pub send_snapshot : Text → Text → ℕ → Server → Server × List RegistryEvent
unfolding snapshot_sessions
send_snapshot tunnel relay now srv =
    let (srv', sessions) = snapshot_sessions tunnel relay now srv srv.store in
    (srv', sessions ++ snapshot tunnel relay now srv'.coord)

-- The loop of Watch over the events of its subscription, while Send succeeds
unfoldable pub watched : Text → Text → List RegistryEvent → List RegistryEvent
watched tunnel relay [] = []
watched tunnel relay (e ∷ es) =
    let rest = watched tunnel relay es in
    if matches_domain_event e tunnel relay then e ∷ rest else rest
