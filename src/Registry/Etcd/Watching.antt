-- ===== src/Registry/Etcd/Watching.antt =====
-- internal/registry/etcd_coordinator.go: the health of relays, the events that etcd's watch brings, and what is
-- there at first.
pub mod Events
use tunneledge.Common.{
  Text, ℕ, suc, Bool, true, false, not, ◌&&◌, ◌||◌, ltb, List, [], ◌∷◌, ◌++◌, map, Option, none,
  some, codes, is_empty, text_eq, if◌then◌else◌,
}
use tunneledge.Common.Maps.{Dict, put}
use tunneledge.Domain.{
  Lease, RelayInfo, RelayHealth, RegistryEvent, lease_acquired, lease_released, relay_upserted,
  relay_health_updated,
}
use tunneledge.Errs.{Result, ok, err, rpc, rpc_invalid_argument}
use tunneledge.Gateway.Router.{strip, trim_prefix}
use tunneledge.Registry.Coordinator.{
  EventSub, HealthSub, offer_event, offer_health, drop_sub, acquired_event, released_event,
  health_event,
}
use tunneledge.Registry.Coordinator.Snapshot.{skips, relay_event, relay_health_event}
use tunneledge.Registry.Etcd.{
  Reply, replied, failed, KeyValue, Etcd, LeaseMeta, RelayMeta, Json, Codecs, EtcdCoordinator,
  leases_prefix, relays_prefix, health_prefix, lease_of, or_nothing, at_etcd, remember,
}

-- Publish and publishHealth
unfoldable pub publish : {E : Type 0} → RegistryEvent → EtcdCoordinator E → EtcdCoordinator E
publish e c = record c { event_subs = map (offer_event e) c.event_subs }

unfoldable pub publish_health :
    {E : Type 0} → Text → RelayHealth → EtcdCoordinator E → EtcdCoordinator E
publish_health relay_id h c = record c { health_subs = map (offer_health relay_id h) c.health_subs }

-- Subscribe: a new channel's number
unfoldable pub subscribe : {E : Type 0} → EtcdCoordinator E → EtcdCoordinator E × ℕ
subscribe c = (
  record c {
    next_id = suc c.next_id;
    event_subs = c.event_subs ++ (record { sub_id = suc c.next_id; queue = [] } ∷ []);
  },
  suc c.next_id,
)

-- The end of a subscription, when its context is done
unfoldable pub unsubscribe : {E : Type 0} → ℕ → EtcdCoordinator E → EtcdCoordinator E
unfolding drop_sub
unsubscribe id c = record c { event_subs = drop_sub id c.event_subs }

-- The domain.RelayInfo that the coordinator makes of a stored one.
abbrev pub relay_of : RelayMeta → RelayInfo
relay_of m = record {
  relay_id = m.relay_id;
  advertise_addr = m.advertise_addr;
  state = m.state;
  active_tunnels = m.active_tunnels;
  active_streams = m.active_streams;
  last_seen = m.last_seen;
  region = [];
}

abbrev meta_of : RelayInfo → RelayMeta
meta_of r = record {
  relay_id = r.relay_id;
  advertise_addr = r.advertise_addr;
  state = r.state;
  active_tunnels = r.active_tunnels;
  active_streams = r.active_streams;
  last_seen = r.last_seen;
}

-- rInfo, as ReportRelayHealth first makes it
abbrev reported_relay : Text → Text → RelayHealth → RelayInfo
reported_relay relay_id advertise_addr h = record {
  relay_id = relay_id;
  advertise_addr = advertise_addr;
  state = codes "active";
  active_tunnels = h.active_tunnels;
  active_streams = h.active_streams;
  last_seen = h.recorded_at;
  region = [];
}

-- if existingRelay != nil && advertiseAddr == "" { rInfo.AdvertiseAddr = existingRelay.AdvertiseAddr }
abbrev or_known_addr : Option RelayInfo → RelayInfo → RelayInfo
or_known_addr none r = r
or_known_addr (some known) r =
    if is_empty r.advertise_addr then record r { advertise_addr = known.advertise_addr } else r

-- A decoded value of the first pair
abbrev first_of : {A : Type 0} → Json A → List KeyValue → Option A
first_of j [] = none
first_of j (kv ∷ kvs) = j.unmarshal kv.value

abbrev answer_of : {E A : Type 0} → Json A → E × Reply (List KeyValue) → E × Option A
answer_of j (e, failed message) = (e, none)
answer_of j (e, replied kvs) = (e, first_of j kvs)

abbrev map_relay : Option RelayMeta → Option RelayInfo
map_relay none = none
map_relay (some m) = some (relay_of m)

-- resp.Kvs, and none where Get fails
abbrev kvs_of : {E : Type 0} → E × Reply (List KeyValue) → E × List KeyValue
kvs_of (e, failed message) = (e, [])
kvs_of (e, replied kvs) = (e, kvs)

abbrev lease_event_of : Text → Text → ℕ → Option LeaseMeta → List RegistryEvent
lease_event_of tunnel relay now none = []
lease_event_of tunnel relay now (some m) =
    if skips tunnel m.tunnel_id || skips relay m.relay_id || ltb m.expires_at now
    then []
    else acquired_event (lease_of m) ∷ []

abbrev relay_event_of : Text → Option RelayMeta → List RegistryEvent
relay_event_of relay none = []
relay_event_of relay (some m) = if skips relay m.relay_id then [] else relay_event (relay_of m) ∷ []

module _ (k : Etcd) (j : Codecs) where
  -- getRelayInfo
  unfoldable pub get_relay_info : Text → k.E → k.E × Option RelayInfo
  get_relay_info relay_id e =
      let (e', m) = answer_of j.relay (k.get_key (relays_prefix ++ relay_id) e) in (e', map_relay m)

  -- GetRelayHealth
  unfoldable pub get_relay_health : Text → k.E → k.E × Option RelayHealth
  get_relay_health relay_id e = answer_of j.health (k.get_key (health_prefix ++ relay_id) e)

  -- if err == nil { _, _ = c.client.Put(ctx, key, payload) }
  abbrev put_marshalled : Text → Option ℕ → Reply Text → k.E → k.E
  put_marshalled key lease (failed message) e = e
  put_marshalled key lease (replied payload) e = (k.put_key key payload lease e).0

  abbrev put_with : Text → Text → k.E × Reply ℕ → k.E
  put_with key payload (e, failed message) = (k.put_key key payload none e).0
  put_with key payload (e, replied id) = (k.put_key key payload (some id) e).0

  -- The health, with a lease of 60 seconds where one is granted
  abbrev put_health : Text → Reply Text → k.E → k.E
  put_health key (failed message) e = e
  put_health key (replied payload) e = put_with key payload (k.grant 60 e)

  -- ReportRelayHealth
  unfoldable pub report_relay_health :
      Text
      → Text
      → RelayHealth
      → EtcdCoordinator k.E
      → EtcdCoordinator k.E × Result (RelayInfo × RelayHealth)
  unfolding get_relay_info publish publish_health
  report_relay_health relay_id advertise_addr h c =
      let (e, known) = get_relay_info relay_id c.etcd in
      let r = or_known_addr known (reported_relay relay_id advertise_addr h) in
      let e' = put_marshalled (relays_prefix ++ relay_id) none (j.relay.marshal (meta_of r)) e in
      let e'' = put_health (health_prefix ++ relay_id) (j.health.marshal h) e' in
      if is_empty relay_id
      then (c, err (rpc rpc_invalid_argument "relay_id is required" []))
      else (publish_health relay_id h (publish (health_event r h) (at_etcd e'' c)), ok (r, h))

  -- SubscribeHealth
  unfoldable pub subscribe_health :
      Text → EtcdCoordinator k.E → EtcdCoordinator k.E × ℕ × Option RelayHealth
  unfolding get_relay_health
  subscribe_health relay_id c =
      let (e, current) = get_relay_health relay_id c.etcd in
      (
        record c {
          etcd = e;
          next_id = suc c.next_id;
          health_subs =
              c.health_subs
              ++ (record { sub_id = suc c.next_id; relay_id = relay_id; queue = [] } ∷ []);
        },
        suc c.next_id,
        current,
      )

  -- The loops of Snapshot
  unfoldable pub lease_events : Text → Text → ℕ → List KeyValue → List RegistryEvent
  lease_events tunnel relay now [] = []
  lease_events tunnel relay now (kv ∷ kvs) =
      lease_event_of tunnel relay now (j.lease.unmarshal kv.value)
      ++ lease_events tunnel relay now kvs

  unfoldable pub relay_events : Text → List KeyValue → List RegistryEvent
  relay_events relay [] = []
  relay_events relay (kv ∷ kvs) =
      relay_event_of relay (j.relay.unmarshal kv.value) ++ relay_events relay kvs

  -- A pair of the last loop: the relay is looked up only where an event is made.
  abbrev health_event_of : Text → Text → k.E → Option RelayHealth → k.E × List RegistryEvent
  health_event_of relay id e none = (e, [])
  health_event_of relay id e (some h) =
      let (e', r) = get_relay_info id e in
      if skips relay id then (e, []) else (e', relay_health_event r h ∷ [])

  unfoldable pub health_events : Text → k.E → List KeyValue → k.E × List RegistryEvent
  unfolding get_relay_info
  health_events relay e [] = (e, [])
  health_events relay e (kv ∷ kvs) =
      let (e', first) =
        health_event_of relay (trim_prefix kv.key health_prefix) e (j.health.unmarshal kv.value) in
      let (last, rest) = health_events relay e' kvs in (last, first ++ rest)

  -- Snapshot
  unfoldable pub snapshot : Text → Text → ℕ → k.E → k.E × List RegistryEvent
  unfolding lease_events relay_events health_events
  snapshot tunnel relay now e =
      let (e1, leases) = kvs_of (k.get_prefix leases_prefix e) in
      let (e2, relays) = kvs_of (k.get_prefix relays_prefix e1) in
      let (e3, healths) = kvs_of (k.get_prefix health_prefix e2) in
      let (e4, health) = health_events relay e3 healths in
      (e4, lease_events tunnel relay now leases ++ (relay_events relay relays ++ health))
