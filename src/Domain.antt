-- ===== src/Domain.antt =====
-- internal/domain: the structs that the services share. A time is a number of clock ticks, and so is
-- a duration; that of a lease request has a sign. Counters are numbers and floats are their bit patterns where they are only copied.
pub mod TunnelId
pub mod Validate
use tunneledge.Common.{Text, ℕ, ℤ, ◌+◌, ◌-◌, ◌%◌, ◌^◌, Bool, Option, none, [], ltb}

-- Session. CreatedAt and LastHeartbeat are 0 where the source has the zero time.
pub record Session : Type 0 where
  pub tunnel_id : Text
  pub agent_id : Text
  pub owner_relay_id : Text
  pub lease_id : Text
  pub public_addr : Text
  pub local_addr : Text
  pub remote_addr : Text
  pub created_at : ℕ
  pub last_heartbeat : ℕ
  pub resume_token : Text
  pub resume_deadline : Option ℕ

-- NewSession
abbrev pub new_session : ℕ → Text → Text → Text → Session
new_session now tunnel_id agent_id local_addr = record {
  tunnel_id = tunnel_id;
  agent_id = agent_id;
  owner_relay_id = [];
  lease_id = [];
  public_addr = [];
  local_addr = local_addr;
  remote_addr = [];
  created_at = now;
  last_heartbeat = now;
  resume_token = [];
  resume_deadline = none;
}

-- Session.IsExpired: time.Since(s.LastHeartbeat) > ttl
unfoldable pub is_expired : ℕ → Session → ℕ → Bool
is_expired now s ttl = ltb (s.last_heartbeat + ttl) now

-- Session.Touch
abbrev pub touch : ℕ → Session → Session
touch now s = record s { last_heartbeat = now }

pub record Lease : Type 0 where
  pub lease_id : Text
  pub tunnel_id : Text
  pub relay_id : Text
  pub expires_at : ℕ
  pub version : ℕ

pub record LeaseRequest : Type 0 where
  pub tunnel_id : Text
  pub relay_id : Text
  pub ttl : ℤ

-- lease.Version++, an int64
abbrev pub next_version : ℕ → ℕ
next_version v = (v + 1) % 2 ^ 64

-- lease.ExpiresAt.Before(now)
abbrev pub lease_expired : Lease → ℕ → Bool
lease_expired l now = ltb l.expires_at now

pub record RelayInfo : Type 0 where
  pub relay_id : Text
  pub advertise_addr : Text
  pub state : Text
  pub active_tunnels : ℕ
  pub active_streams : ℕ
  pub last_seen : ℕ
  pub region : Text

pub record RelayHealth : Type 0 where
  pub advertise_addr : Text
  pub rtt_millis : ℕ
  pub heartbeat_latency_millis : ℕ
  pub active_tunnels : ℕ
  pub active_streams : ℕ
  pub bytes_per_second : ℕ
  pub packet_loss_pct : ℕ
  pub cpu_utilization_pct : ℕ
  pub memory_utilization_pct : ℕ
  pub recorded_at : ℕ
  pub region : Text

-- RegistryEventType
pub data EventType : Type 0 where
  unknown_event tunnel_upserted tunnel_deleted lease_acquired lease_released : EventType
  relay_upserted relay_health_updated : EventType

-- RegistryEvent: a pointer that may be nil is an option.
pub record RegistryEvent : Type 0 where
  pub type : EventType
  pub tunnel : Option Session
  pub lease : Option Lease
  pub relay : Option RelayInfo
  pub health : Option RelayHealth
