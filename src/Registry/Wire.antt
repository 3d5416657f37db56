-- ===== src/Registry/Wire.antt =====
-- internal/registry/server.go: the messages of the registry's service, and the conversions to them. A
-- message that may be nil is an option. A time is a number of nanoseconds; 0 is the zero time, whose Unix
-- seconds are the only negative ones, and also the start of 1970, which a message without a time gives.
pub mod Received
pub mod Carried
use tunneledge.Common.{
  Text, ℕ, zero, suc, ◌*◌, ◌/◌, ◌^◌, Bool, List, [], Option, none, some, ◌==◌, if◌then◌else◌,
}
use tunneledge.Domain.{
  Session, Lease, RelayInfo, RelayHealth, RegistryEvent, EventType, unknown_event, tunnel_upserted,
  tunnel_deleted, lease_acquired, lease_released, relay_upserted, relay_health_updated,
}

-- What Time.Unix returns
pub data Seconds : Type 0 where
  before_epoch : Seconds
  since_epoch : ℕ → Seconds

-- time.Second
abbrev pub second : ℕ
second = 10 ^ 9

-- t.Unix()
abbrev pub unix : ℕ → Seconds
unix zero = before_epoch
unix (suc t) = since_epoch (suc t / second)

-- time.Unix(seconds, 0)
abbrev pub from_unix : Seconds → ℕ
from_unix before_epoch = 0
from_unix (since_epoch s) = s * second

-- pb.GetTunnelResponse
pub record TunnelMessage : Type 0 where
  pub tunnel_id : Text
  pub agent_id : Text
  pub public_addr : Text
  pub local_addr : Text
  pub created_at : Seconds
  pub last_heartbeat : Seconds
  pub owner_relay_id : Text
  pub lease_id : Text

-- pb.LeaseInfo
pub record LeaseMessage : Type 0 where
  pub lease_id : Text
  pub tunnel_id : Text
  pub relay_id : Text
  pub expires_at_unix : Seconds
  pub version : ℕ

-- pb.RelayInfo
pub record RelayMessage : Type 0 where
  pub relay_id : Text
  pub advertise_addr : Text
  pub state : Text
  pub active_tunnels : ℕ
  pub active_streams : ℕ
  pub last_seen_unix : Seconds

-- pb.RelayHealth
pub record HealthMessage : Type 0 where
  pub rtt_millis : ℕ
  pub heartbeat_latency_millis : ℕ
  pub active_tunnels : ℕ
  pub active_streams : ℕ
  pub bytes_per_second : ℕ
  pub packet_loss_pct : ℕ
  pub cpu_utilization_pct : ℕ
  pub memory_utilization_pct : ℕ
  pub recorded_at_unix : Seconds

-- pb.WatchEventType
pub data WatchEventType : Type 0 where
  watch_unspecified watch_tunnel_upserted watch_tunnel_deleted watch_lease_acquired : WatchEventType
  watch_lease_released watch_relay_upserted watch_relay_health_updated : WatchEventType

-- pb.WatchResponse
pub record WatchResponse : Type 0 where
  pub event_type : WatchEventType
  pub tunnel : Option TunnelMessage
  pub lease : Option LeaseMessage
  pub relay : Option RelayMessage
  pub health : Option HealthMessage

-- sessionToProto, of a session that is not nil
abbrev pub tunnel_message : Session → TunnelMessage
tunnel_message s = record {
  tunnel_id = s.tunnel_id;
  agent_id = s.agent_id;
  public_addr = s.public_addr;
  local_addr = s.local_addr;
  created_at = unix s.created_at;
  last_heartbeat = unix s.last_heartbeat;
  owner_relay_id = s.owner_relay_id;
  lease_id = s.lease_id;
}

-- sessionToProto
abbrev pub session_to_proto : Option Session → Option TunnelMessage
session_to_proto none = none
session_to_proto (some s) = some (tunnel_message s)

abbrev pub lease_message : Lease → LeaseMessage
lease_message l = record {
  lease_id = l.lease_id;
  tunnel_id = l.tunnel_id;
  relay_id = l.relay_id;
  expires_at_unix = unix l.expires_at;
  version = l.version;
}

-- leaseToProto
abbrev pub lease_to_proto : Option Lease → Option LeaseMessage
lease_to_proto none = none
lease_to_proto (some l) = some (lease_message l)

-- relayToProto
abbrev pub relay_to_proto : Option RelayInfo → Option RelayMessage
relay_to_proto none = none
relay_to_proto (some r) = some (record {
  relay_id = r.relay_id;
  advertise_addr = r.advertise_addr;
  state = r.state;
  active_tunnels = r.active_tunnels;
  active_streams = r.active_streams;
  last_seen_unix = unix r.last_seen;
})

abbrev pub health_message : RelayHealth → HealthMessage
health_message h = record {
  rtt_millis = h.rtt_millis;
  heartbeat_latency_millis = h.heartbeat_latency_millis;
  active_tunnels = h.active_tunnels;
  active_streams = h.active_streams;
  bytes_per_second = h.bytes_per_second;
  packet_loss_pct = h.packet_loss_pct;
  cpu_utilization_pct = h.cpu_utilization_pct;
  memory_utilization_pct = h.memory_utilization_pct;
  recorded_at_unix = unix h.recorded_at;
}

-- relayHealthToProto of the server. The client's is the same without the test for nil.
abbrev pub relay_health_to_proto : Option RelayHealth → Option HealthMessage
relay_health_to_proto none = none
relay_health_to_proto (some h) = some (health_message h)

-- The Tunnel of a TUNNEL_DELETED message
abbrev pub deleted_tunnel : Text → TunnelMessage
deleted_tunnel id = record {
  tunnel_id = id;
  agent_id = [];
  public_addr = [];
  local_addr = [];
  created_at = since_epoch 0;
  last_heartbeat = since_epoch 0;
  owner_relay_id = [];
  lease_id = [];
}

abbrev pub tunnel_id_of : Option Session → Text
tunnel_id_of none = []
tunnel_id_of (some s) = s.tunnel_id

abbrev pub response : WatchEventType → WatchResponse
response type = record {
  event_type = type;
  tunnel = none;
  lease = none;
  relay = none;
  health = none;
}

abbrev pub response_of : EventType → RegistryEvent → Option WatchResponse
response_of tunnel_upserted e =
    some (record (response watch_tunnel_upserted) { tunnel = session_to_proto e.tunnel })
response_of tunnel_deleted e = some (record (response watch_tunnel_deleted) {
  tunnel = some (deleted_tunnel (tunnel_id_of e.tunnel));
})
response_of lease_acquired e =
    some (record (response watch_lease_acquired) { lease = lease_to_proto e.lease })
response_of lease_released e =
    some (record (response watch_lease_released) { lease = lease_to_proto e.lease })
response_of relay_upserted e =
    some (record (response watch_relay_upserted) { relay = relay_to_proto e.relay })
response_of relay_health_updated e = some (record (response watch_relay_health_updated) {
  relay = relay_to_proto e.relay;
  health = relay_health_to_proto e.health;
})
response_of unknown_event e = none

-- domainEventToProto
unfoldable pub domain_event_to_proto : RegistryEvent → Option WatchResponse
domain_event_to_proto e = response_of e.type e
