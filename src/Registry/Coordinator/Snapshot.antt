-- ===== src/Registry/Coordinator/Snapshot.antt =====
-- internal/registry/mem_coordinator.go: Snapshot; and matchesDomainEvent of server.go, the filter of the
-- events that follow.
use tunneledge.Common.{
  Text, ℕ, Bool, true, false, not, ◌&&◌, ◌||◌, List, [], ◌∷◌, ◌++◌, Option, none, some, is_empty,
  text_eq, if◌then◌else◌,
}
use tunneledge.Common.Maps.{Dict, get}
use tunneledge.Domain.{
  Session, Lease, RelayInfo, RelayHealth, RegistryEvent, EventType, unknown_event, tunnel_upserted,
  tunnel_deleted, lease_acquired, lease_released, relay_upserted, relay_health_updated,
  lease_expired,
}
use tunneledge.Registry.Coordinator.{MemCoordinator, acquired_event}

-- filter != "" && id != filter
abbrev pub skips : Text → Text → Bool
skips filter id = not (is_empty filter) && not (text_eq id filter)

abbrev pub relay_event : RelayInfo → RegistryEvent
relay_event r = record {
  type = relay_upserted;
  tunnel = none;
  lease = none;
  relay = some r;
  health = none;
}

abbrev pub relay_health_event : Option RelayInfo → RelayHealth → RegistryEvent
relay_health_event r h = record {
  type = relay_health_updated;
  tunnel = none;
  lease = none;
  relay = r;
  health = some h;
}

-- The first loop of Snapshot
unfoldable pub lease_events : Text → Text → ℕ → Dict Lease → List RegistryEvent
lease_events tunnel relay now [] = []
lease_events tunnel relay now ((id, l) ∷ m) =
    let rest = lease_events tunnel relay now m in
    if lease_expired l now || (skips tunnel l.tunnel_id || skips relay l.relay_id)
    then rest
    else acquired_event l ∷ rest

-- The second loop
unfoldable pub relay_events : Text → Dict RelayInfo → List RegistryEvent
relay_events relay [] = []
relay_events relay ((id, r) ∷ m) =
    let rest = relay_events relay m in if skips relay r.relay_id then rest else relay_event r ∷ rest

-- The third loop
unfoldable pub health_events : Text → Dict RelayInfo → Dict RelayHealth → List RegistryEvent
health_events relay relays [] = []
health_events relay relays ((id, h) ∷ m) =
    let rest = health_events relay relays m in
    if skips relay id then rest else relay_health_event (get relays id) h ∷ rest

-- Snapshot
unfoldable pub snapshot : Text → Text → ℕ → MemCoordinator → List RegistryEvent
unfolding lease_events relay_events health_events
snapshot tunnel relay now m =
    lease_events tunnel relay now m.leases.by_id
    ++ (relay_events relay m.relays ++ health_events relay m.relays m.relay_health)

abbrev tunnel_matches : Text → Text → Option Session → Bool
tunnel_matches tunnel relay none = false
tunnel_matches tunnel relay (some s) =
    not (skips tunnel s.tunnel_id) && not (skips relay s.owner_relay_id)

abbrev lease_matches : Text → Text → Option Lease → Bool
lease_matches tunnel relay none = false
lease_matches tunnel relay (some l) = not (skips tunnel l.tunnel_id) && not (skips relay l.relay_id)

abbrev relay_matches : Text → Option RelayInfo → Bool
relay_matches relay none = false
relay_matches relay (some r) = not (skips relay r.relay_id)

abbrev type_matches : Text → Text → EventType → RegistryEvent → Bool
type_matches tunnel relay tunnel_upserted e = tunnel_matches tunnel relay e.tunnel
type_matches tunnel relay tunnel_deleted e = tunnel_matches tunnel relay e.tunnel
type_matches tunnel relay lease_acquired e = lease_matches tunnel relay e.lease
type_matches tunnel relay lease_released e = lease_matches tunnel relay e.lease
type_matches tunnel relay relay_upserted e = relay_matches relay e.relay
type_matches tunnel relay relay_health_updated e = relay_matches relay e.relay
type_matches tunnel relay unknown_event e = true

-- matchesDomainEvent
unfoldable pub matches_domain_event : RegistryEvent → Text → Text → Bool
matches_domain_event e tunnel relay =
    if is_empty tunnel && is_empty relay then true else type_matches tunnel relay e.type e
