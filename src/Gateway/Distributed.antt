-- ===== src/Gateway/Distributed.antt =====
-- internal/gateway/distributed_router.go: DistributedRouter, the mirror of the registry's events.
pub mod Routes
pub mod Peers
pub mod Started
use tunneledge.Common.{
  Text, ℕ, Bool, true, false, not, ◌||◌, List, [], ◌∷◌, ◌++◌, map, Option, none, some, codes,
  is_empty, text_eq, if◌then◌else◌,
}
use tunneledge.Common.Maps.{Dict, get, put, retain}
use tunneledge.Domain.{
  Session, Lease, RelayInfo, RelayHealth, RegistryEvent, EventType, unknown_event, tunnel_upserted,
  tunnel_deleted, lease_acquired, lease_released, relay_upserted, relay_health_updated,
}
use tunneledge.Gateway.Router.{TunnelRouter, hostname_for_tunnel}
use tunneledge.Gateway.Scorer.{Float64, RelayScorer, new_scorer, update}

-- remoteRoute
pub record RemoteRoute : Type 0 where
  pub tunnel_id : Text
  pub label : Text
  pub owner_relay_id : Text
  pub owner_addr : Text

pub record DistributedRouter (F : Type 0) : Type 0 where
  pub routes : Dict RemoteRoute
  pub relays : Dict Text
  pub self_relay_id : Text
  pub base_domain : Text
  pub router : TunnelRouter
  pub scorer : RelayScorer F

-- NewDistributedRouter
abbrev pub new_distributed : (fl : Float64) → Text → Text → TunnelRouter → DistributedRouter fl.F
new_distributed fl self base_domain local_router = record {
  routes = [];
  relays = [];
  self_relay_id = self;
  base_domain = base_domain;
  router = local_router;
  scorer = new_scorer fl;
}

-- m[k] of strings: "" where the key is missing
unfoldable pub or_blank : Option Text → Text
or_blank none = []
or_blank (some v) = v

-- Lookup, from the look-up on
unfoldable pub peer_route : Text → Option RemoteRoute → Option RemoteRoute
peer_route self none = none
peer_route self (some r) = if text_eq r.owner_relay_id self then none else some r

-- The owner in a TunnelUpserted event: the session's, else the lease's.
unfoldable pub owner_of : Session → Option Lease → Text
owner_of s none = s.owner_relay_id
owner_of s (some l) = if is_empty s.owner_relay_id then l.relay_id else s.owner_relay_id

module _ {F : Type 0} where
  -- Lookup
  unfoldable pub lookup_peer : DistributedRouter F → Text → Option RemoteRoute
  unfolding peer_route
  lookup_peer d hostname = peer_route d.self_relay_id (get d.routes hostname)

  -- upsertTunnelRoutes
  unfoldable pub upsert_tunnel_routes : DistributedRouter F → Text → Text → DistributedRouter F
  unfolding or_blank
  upsert_tunnel_routes d tunnel_id owner = record d {
    routes = put d.routes (hostname_for_tunnel d.router.domain tunnel_id) (record {
      tunnel_id = tunnel_id;
      label = codes "default";
      owner_relay_id = owner;
      owner_addr = or_blank (get d.relays owner);
    });
  }

  -- removeTunnelRoutes
  unfoldable pub remove_tunnel_routes : DistributedRouter F → Text → DistributedRouter F
  remove_tunnel_routes d tunnel_id = record d {
    routes = retain (λ host route. not (text_eq route.tunnel_id tunnel_id)) d.routes;
  }

  -- if event.Relay != nil && event.Relay.AdvertiseAddr != "" { d.relays[id] = addr }
  unfoldable pub note_relay : RelayInfo → DistributedRouter F → DistributedRouter F
  note_relay r d =
      if is_empty r.advertise_addr
      then d
      else record d { relays = put d.relays r.relay_id r.advertise_addr }

  -- if owner == "" || owner == d.selfRelayID { return }, else upsertTunnelRoutes
  unfoldable pub upsert_of_peer : DistributedRouter F → Text → Text → DistributedRouter F
  unfolding upsert_tunnel_routes
  upsert_of_peer d tunnel_id owner =
      if is_empty owner || text_eq owner d.self_relay_id
      then d
      else upsert_tunnel_routes d tunnel_id owner

  unfoldable pub on_tunnel_upserted :
      DistributedRouter F → Option Session → Option Lease → DistributedRouter F
  unfolding upsert_of_peer owner_of
  on_tunnel_upserted d none lease = d
  on_tunnel_upserted d (some s) lease = upsert_of_peer d s.tunnel_id (owner_of s lease)

  unfoldable pub on_lease_acquired : DistributedRouter F → Option Lease → DistributedRouter F
  unfolding upsert_of_peer
  on_lease_acquired d none = d
  on_lease_acquired d (some l) = upsert_of_peer d l.tunnel_id l.relay_id

  unfoldable pub on_lease_released : DistributedRouter F → Option Lease → DistributedRouter F
  unfolding remove_tunnel_routes
  on_lease_released d none = d
  on_lease_released d (some l) = remove_tunnel_routes d l.tunnel_id

  unfoldable pub on_tunnel_deleted : DistributedRouter F → Option Session → DistributedRouter F
  unfolding remove_tunnel_routes
  on_tunnel_deleted d none = d
  on_tunnel_deleted d (some s) = remove_tunnel_routes d s.tunnel_id

  -- UpdateRelayAddr
  unfoldable pub update_relay_addr : DistributedRouter F → Text → Text → DistributedRouter F
  update_relay_addr d relay_id addr = if is_empty relay_id || is_empty addr then d else record d {
    relays = put d.relays relay_id addr;
    routes =
        map
          (λ (entry : Text × RemoteRoute). (
            entry.0,
            (if text_eq entry.1.owner_relay_id relay_id
                then record (entry.1) { owner_addr = addr }
                else entry.1),
          ))
          d.routes;
  }

-- A health snapshot made from relay metadata alone.
abbrev pub health_of_relay : RelayInfo → RelayHealth
health_of_relay r = record {
  advertise_addr = r.advertise_addr;
  rtt_millis = 0;
  heartbeat_latency_millis = 0;
  active_tunnels = 0;
  active_streams = 0;
  bytes_per_second = 0;
  packet_loss_pct = 0;
  cpu_utilization_pct = 0;
  memory_utilization_pct = 0;
  recorded_at = 0;
  region = r.region;
}

module _ (fl : Float64) where
  abbrev score : Text → RelayHealth → DistributedRouter fl.F → DistributedRouter fl.F
  score relay_id h d = record d { scorer = update fl relay_id h d.scorer }

  unfoldable pub on_relay_upserted :
      DistributedRouter fl.F → Option RelayInfo → DistributedRouter fl.F
  unfolding note_relay
  on_relay_upserted d none = d
  on_relay_upserted d (some r) =
      if is_empty r.advertise_addr then d else score r.relay_id (health_of_relay r) (note_relay r d)

  -- The health is scored under its advertise address, not under the relay's ID.
  unfoldable pub on_health :
      DistributedRouter fl.F → Option RelayInfo → Option RelayHealth → DistributedRouter fl.F
  unfolding note_relay
  on_health d none none = d
  on_health d none (some h) = score h.advertise_addr h d
  on_health d (some r) none = score r.relay_id (health_of_relay r) (note_relay r d)
  on_health d (some r) (some h) = score h.advertise_addr h (note_relay r d)

  abbrev pub dispatch : EventType → DistributedRouter fl.F → RegistryEvent → DistributedRouter fl.F
  dispatch relay_upserted d e = on_relay_upserted d e.relay
  dispatch relay_health_updated d e = on_health d e.relay e.health
  dispatch tunnel_upserted d e = on_tunnel_upserted d e.tunnel e.lease
  dispatch lease_acquired d e = on_lease_acquired d e.lease
  dispatch lease_released d e = on_lease_released d e.lease
  dispatch tunnel_deleted d e = on_tunnel_deleted d e.tunnel
  dispatch unknown_event d e = d

  -- handleEvent
  unfoldable pub handle_event : DistributedRouter fl.F → RegistryEvent → DistributedRouter fl.F
  unfolding on_relay_upserted on_health on_tunnel_upserted on_lease_acquired on_lease_released
      on_tunnel_deleted
  handle_event d e = dispatch e.type d e

  -- The loop of Run over the events that it receives.
  unfoldable pub run : DistributedRouter fl.F → List RegistryEvent → DistributedRouter fl.F
  run d [] = d
  run d (e ∷ es) = run (handle_event d e) es
