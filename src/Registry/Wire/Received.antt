-- ===== src/Registry/Wire/Received.antt =====
-- internal/registry/client.go: the structs that a client makes of the messages; and the health that
-- server.go makes of a report.
use tunneledge.Common.{ℕ, zero, suc, ◌*◌, [], Option, none, some}
use tunneledge.Domain.{
  Session, Lease, RelayInfo, RelayHealth, RegistryEvent, EventType, unknown_event, tunnel_upserted,
  tunnel_deleted, lease_acquired, lease_released, relay_upserted, relay_health_updated,
}
use tunneledge.Registry.Wire.{
  Seconds, second, from_unix, TunnelMessage, LeaseMessage, RelayMessage, HealthMessage,
  WatchEventType, watch_unspecified, watch_tunnel_upserted, watch_tunnel_deleted,
  watch_lease_acquired, watch_lease_released, watch_relay_upserted, watch_relay_health_updated,
  WatchResponse, before_epoch, since_epoch,
}

-- sessionFromProto
abbrev pub session_from_proto : Option TunnelMessage → Option Session
session_from_proto none = none
session_from_proto (some m) = some (record {
  tunnel_id = m.tunnel_id;
  agent_id = m.agent_id;
  owner_relay_id = m.owner_relay_id;
  lease_id = m.lease_id;
  public_addr = m.public_addr;
  local_addr = m.local_addr;
  remote_addr = [];
  created_at = from_unix m.created_at;
  last_heartbeat = from_unix m.last_heartbeat;
  resume_token = [];
  resume_deadline = none;
})

-- leaseFromProto
abbrev pub lease_from_proto : Option LeaseMessage → Option Lease
lease_from_proto none = none
lease_from_proto (some m) = some (record {
  lease_id = m.lease_id;
  tunnel_id = m.tunnel_id;
  relay_id = m.relay_id;
  expires_at = from_unix m.expires_at_unix;
  version = m.version;
})

-- relayInfoFromProto
abbrev pub relay_info_from_proto : Option RelayMessage → Option RelayInfo
relay_info_from_proto none = none
relay_info_from_proto (some m) = some (record {
  relay_id = m.relay_id;
  advertise_addr = m.advertise_addr;
  state = m.state;
  active_tunnels = m.active_tunnels;
  active_streams = m.active_streams;
  last_seen = from_unix m.last_seen_unix;
  region = [];
})

abbrev pub health_from : HealthMessage → ℕ → RelayHealth
health_from m recorded_at = record {
  advertise_addr = [];
  rtt_millis = m.rtt_millis;
  heartbeat_latency_millis = m.heartbeat_latency_millis;
  active_tunnels = m.active_tunnels;
  active_streams = m.active_streams;
  bytes_per_second = m.bytes_per_second;
  packet_loss_pct = m.packet_loss_pct;
  cpu_utilization_pct = m.cpu_utilization_pct;
  memory_utilization_pct = m.memory_utilization_pct;
  recorded_at = recorded_at;
  region = [];
}

-- relayHealthFromProto of the client
abbrev pub relay_health_from_proto : Option HealthMessage → Option RelayHealth
relay_health_from_proto none = none
relay_health_from_proto (some m) = some (health_from m (from_unix m.recorded_at_unix))

-- if health.GetRecordedAtUnix() == 0 { recordedAt = time.Now() }
abbrev pub or_received : ℕ → Seconds → ℕ
or_received now before_epoch = 0
or_received now (since_epoch zero) = now
or_received now (since_epoch (suc s)) = suc s * second

-- relayHealthFromProto of the server
abbrev pub reported_health : ℕ → Option HealthMessage → Option RelayHealth
reported_health now none = none
reported_health now (some m) = some (health_from m (or_received now m.recorded_at_unix))

-- registryEventTypeFromProto
abbrev pub registry_event_type_from_proto : WatchEventType → EventType
registry_event_type_from_proto watch_tunnel_upserted = tunnel_upserted
registry_event_type_from_proto watch_tunnel_deleted = tunnel_deleted
registry_event_type_from_proto watch_lease_acquired = lease_acquired
registry_event_type_from_proto watch_lease_released = lease_released
registry_event_type_from_proto watch_relay_upserted = relay_upserted
registry_event_type_from_proto watch_relay_health_updated = relay_health_updated
registry_event_type_from_proto watch_unspecified = unknown_event

-- registryEventFromProto
unfoldable pub registry_event_from_proto : WatchResponse → RegistryEvent
registry_event_from_proto m = record {
  type = registry_event_type_from_proto m.event_type;
  tunnel = session_from_proto m.tunnel;
  lease = lease_from_proto m.lease;
  relay = relay_info_from_proto m.relay;
  health = relay_health_from_proto m.health;
}
