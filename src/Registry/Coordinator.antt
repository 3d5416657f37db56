-- ===== src/Registry/Coordinator.antt =====
-- internal/registry/mem_coordinator.go: MemCoordinator. Each method is one critical section of `mu`;
-- `now` is what time.Now returns in it. `spawned` holds the events of `go m.Publish(…)` calls that
-- have not run yet: the scheduler may run them in any order (`run_spawned`).
pub mod Publish
pub mod Health
pub mod Snapshot
use tunneledge.Common.{
  Text, ℕ, ℤ, suc, ◌+◌, Bool, true, false, not, ◌&&◌, ◌||◌, List, [], ◌∷◌, ◌++◌, map, Option, none,
  some, is_empty, text_eq, if◌then◌else◌, codes, length, ltb, ◌==◌, drop, take, get_elem?,
}
use tunneledge.Common.Maps
use tunneledge.Common.Maps.{Dict, get, put}
use tunneledge.Errs.{Result, ok, err, rpc, rpc_invalid_argument}
use tunneledge.Domain.{
  Lease, LeaseRequest, RelayInfo, RelayHealth, RegistryEvent, lease_acquired, lease_released,
  relay_upserted, relay_health_updated, lease_expired,
}
use tunneledge.Registry.Leases.{
  LeaseTable, no_leases, acquire, renew, release, release_expired, current_locked,
}

-- A subscriber's channel: what has been sent and not received.
pub record EventSub : Type 0 where
  pub sub_id : ℕ
  pub queue : List RegistryEvent

-- healthEventSub
pub record HealthSub : Type 0 where
  pub sub_id : ℕ
  pub relay_id : Text
  pub queue : List RelayHealth

pub record MemCoordinator : Type 0 where
  pub leases : LeaseTable
  pub relays : Dict RelayInfo
  pub relay_health : Dict RelayHealth
  pub event_subs : List EventSub
  pub health_subs : List HealthSub
  pub next_id : ℕ
  pub spawned : List RegistryEvent

-- NewMemCoordinator
abbrev pub new_coordinator : MemCoordinator
new_coordinator = record {
  leases = no_leases;
  relays = [];
  relay_health = [];
  event_subs = [];
  health_subs = [];
  next_id = 0;
  spawned = [];
}

-- make(chan domain.RegistryEvent, 64)
abbrev pub event_buffer : ℕ
event_buffer = 64

-- make(chan domain.RelayHealth, 32)
abbrev pub health_buffer : ℕ
health_buffer = 32

-- select { case ch <- x: default: }
abbrev pub offer {ℓ} : {A : Type ℓ} → ℕ → List A → A → List A
offer room queue x = if ltb (length queue) room then queue ++ (x ∷ []) else queue

abbrev pub offer_event : RegistryEvent → EventSub → EventSub
offer_event e s = record s { queue = offer event_buffer s.queue e }

-- Publish
unfoldable pub publish : RegistryEvent → MemCoordinator → MemCoordinator
publish e m = record m { event_subs = map (offer_event e) m.event_subs }

abbrev pub offer_health : Text → RelayHealth → HealthSub → HealthSub
offer_health relay_id h s =
    if not (is_empty s.relay_id) && not (text_eq s.relay_id relay_id)
    then s
    else record s { queue = offer health_buffer s.queue h }

-- publishHealth
unfoldable pub publish_health : Text → RelayHealth → MemCoordinator → MemCoordinator
publish_health relay_id h m = record m { health_subs = map (offer_health relay_id h) m.health_subs }

-- A RegistryEvent with nothing but a lease.
abbrev pub acquired_event : Lease → RegistryEvent
acquired_event l = record {
  type = lease_acquired;
  tunnel = none;
  lease = some l;
  relay = none;
  health = none;
}

abbrev pub released_event : Lease → RegistryEvent
released_event l = record {
  type = lease_released;
  tunnel = none;
  lease = some l;
  relay = none;
  health = none;
}

-- go m.Publish(e)
abbrev pub spawn : RegistryEvent → MemCoordinator → MemCoordinator
spawn e m = record m { spawned = m.spawned ++ (e ∷ []) }

-- if relay, ok := m.relays[relayID]; ok { relay.LastSeen = now }
unfoldable pub touch_relay : Text → ℕ → Option RelayInfo → Dict RelayInfo → Dict RelayInfo
touch_relay relay_id now none relays = relays
touch_relay relay_id now (some r) relays = put relays relay_id (record r { last_seen = now })

-- AcquireLease after the lease is granted or refused
unfoldable pub after_acquire :
    LeaseRequest → ℕ → MemCoordinator → LeaseTable × Result Lease → MemCoordinator × Result Lease
after_acquire req now m (tb, err e) = (record m { leases = tb }, err e)
after_acquire req now m (tb, ok l) = (
  spawn (acquired_event l) (record m {
    leases = tb;
    relays = touch_relay req.relay_id now (get m.relays req.relay_id) m.relays;
  }),
  ok l,
)

-- AcquireLease
unfoldable pub acquire_lease :
    LeaseRequest → ℕ → Text → MemCoordinator → MemCoordinator × Result Lease
unfolding after_acquire touch_relay
acquire_lease req now fresh m = after_acquire req now m (acquire m.leases req now fresh)

-- RenewLease and ReleaseLease after their change of the table: a success spawns an event.
abbrev pub announce :
    (Lease → RegistryEvent)
    → MemCoordinator
    → LeaseTable × Result Lease
    → MemCoordinator × Result Lease
announce event m (tb, err e) = (record m { leases = tb }, err e)
announce event m (tb, ok l) = (spawn (event l) (record m { leases = tb }), ok l)

-- RenewLease
unfoldable pub renew_lease : Text → ℤ → ℕ → MemCoordinator → MemCoordinator × Result Lease
renew_lease lease_id ttl now m = announce acquired_event m (renew m.leases lease_id ttl now)

-- ReleaseLease
unfoldable pub release_lease : Text → MemCoordinator → MemCoordinator × Result Lease
release_lease lease_id m = announce released_event m (release m.leases lease_id)

-- CurrentLease
unfoldable pub current_lease : Text → ℕ → MemCoordinator → MemCoordinator × Option Lease
current_lease tunnel_id now m =
    let (tb, l) = current_locked m.leases tunnel_id now in (record m { leases = tb }, l)

-- ensureRelayLocked
unfoldable pub ensure_relay : Text → ℕ → Option RelayInfo → RelayInfo
ensure_relay relay_id now (some r) = r
ensure_relay relay_id now none = record {
  relay_id = relay_id;
  advertise_addr = [];
  state = codes "active";
  active_tunnels = 0;
  active_streams = 0;
  last_seen = now;
  region = [];
}

-- The relay record that ReportRelayHealth leaves.
unfoldable pub reported : RelayInfo → Text → RelayHealth → RelayInfo
reported r advertise_addr h = record r {
  active_tunnels = h.active_tunnels;
  active_streams = h.active_streams;
  last_seen = h.recorded_at;
  advertise_addr = if is_empty advertise_addr then r.advertise_addr else advertise_addr;
}

abbrev pub health_event : RelayInfo → RelayHealth → RegistryEvent
health_event r h = record {
  type = relay_health_updated;
  tunnel = none;
  lease = none;
  relay = some r;
  health = some h;
}

-- ReportRelayHealth
unfoldable pub report_relay_health :
    Text
    → Text
    → RelayHealth
    → ℕ
    → MemCoordinator
    → MemCoordinator × Result (RelayInfo × RelayHealth)
unfolding publish publish_health ensure_relay reported
report_relay_health relay_id advertise_addr h now m =
    if is_empty relay_id
    then (m, err (rpc rpc_invalid_argument "relay_id is required" []))
    else let r = reported (ensure_relay relay_id now (get m.relays relay_id)) advertise_addr h in
      let stored = record m {
        relays = put m.relays relay_id r;
        relay_health = put m.relay_health relay_id h;
      } in
      (publish_health relay_id h (publish (health_event r h) stored), ok (r, h))

-- GetRelayHealth
abbrev pub get_relay_health : Text → MemCoordinator → Option RelayHealth
get_relay_health relay_id m = get m.relay_health relay_id

-- Subscribe: m.nextID.Add(1), and an empty channel
unfoldable pub subscribe : MemCoordinator → MemCoordinator × ℕ
subscribe m = (
  record m {
    next_id = suc m.next_id;
    event_subs = m.event_subs ++ (record { sub_id = suc m.next_id; queue = [] } ∷ []);
  },
  suc m.next_id,
)

-- The end of a subscription, when its context is done.
unfoldable pub drop_sub : ℕ → List EventSub → List EventSub
drop_sub id [] = []
drop_sub id (s ∷ subs) = let rest = drop_sub id subs in if s.sub_id == id then rest else s ∷ rest

unfoldable pub unsubscribe : ℕ → MemCoordinator → MemCoordinator
unfolding drop_sub
unsubscribe id m = record m { event_subs = drop_sub id m.event_subs }

-- SubscribeHealth: the channel's number and the current health
unfoldable pub subscribe_health : Text → MemCoordinator → MemCoordinator × ℕ × Option RelayHealth
subscribe_health relay_id m = (
  record m {
    next_id = suc m.next_id;
    health_subs =
        m.health_subs ++ (record { sub_id = suc m.next_id; relay_id = relay_id; queue = [] } ∷ []);
  },
  suc m.next_id,
  get m.relay_health relay_id,
)

-- ReleaseExpiredLeases: the events are published one by one, with no goroutine.
unfoldable pub publish_released : List Lease → MemCoordinator → MemCoordinator
publish_released [] m = m
publish_released (l ∷ ls) m = publish_released ls (publish (released_event l) m)

unfoldable pub release_expired_leases : ℕ → MemCoordinator → MemCoordinator × List Lease
unfolding publish_released
release_expired_leases now m =
    let (tb, gone) = release_expired m.leases now in
    (publish_released gone (record m { leases = tb }), gone)

-- The scheduler runs the i-th of the spawned Publish calls.
unfoldable pub run_spawned : ℕ → MemCoordinator → MemCoordinator
unfolding publish
run_spawned i m = elim (get_elem? m.spawned i) [
  | none ↦ m
  | some e ↦ publish e (record m { spawned = take i m.spawned ++ drop (suc i) m.spawned })
]
