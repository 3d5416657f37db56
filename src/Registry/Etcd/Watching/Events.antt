-- ===== src/Registry/Etcd/Watching/Events.antt =====
-- internal/registry/etcd_coordinator.go: handleEtcdEvent and the loop that calls it.
use tunneledge.Common.{
  Text, Bool, true, false, List, [], ◌∷◌, Option, none, some, codes, if◌then◌else◌,
}
use tunneledge.Domain.{Lease, RelayInfo, RelayHealth}
use tunneledge.Gateway.Router.{strip, trim_prefix}
use tunneledge.Registry.Coordinator.{acquired_event, released_event}
use tunneledge.Registry.Coordinator.Snapshot.{relay_event, relay_health_event}
use tunneledge.Registry.Etcd.{
  KeyValue, Etcd, LeaseMeta, RelayMeta, Codecs, EtcdCoordinator, leases_prefix, relays_prefix,
  health_prefix, lease_of, at_etcd, remember,
}
use tunneledge.Registry.Etcd.Watching.{publish, publish_health, relay_of, get_relay_info}

-- A watched key's change: `deleted` is EventTypeDelete.
pub record EtcdEvent : Type 0 where
  pub deleted : Bool
  pub kv : KeyValue

abbrev has_prefix : Text → Text → Bool
has_prefix s p = elim (strip p s) [ none ↦ false | some rest ↦ true ]

-- The lease of an event of a key that is gone: it has a tunnel ID only.
abbrev gone_lease : Text → Lease
gone_lease tunnel_id = record {
  lease_id = [];
  tunnel_id = tunnel_id;
  relay_id = [];
  expires_at = 0;
  version = 0;
}

abbrev gone_relay : Text → RelayInfo
gone_relay relay_id = record {
  relay_id = relay_id;
  advertise_addr = [];
  state = codes "gone";
  active_tunnels = 0;
  active_streams = 0;
  last_seen = 0;
  region = [];
}

abbrev lease_put : {E : Type 0} → Option LeaseMeta → EtcdCoordinator E → EtcdCoordinator E
lease_put none c = c
lease_put (some m) c = publish (acquired_event (lease_of m)) (remember m.lease_id m.etcd_lease c)

abbrev relay_put : {E : Type 0} → Option RelayMeta → EtcdCoordinator E → EtcdCoordinator E
relay_put none c = c
relay_put (some m) c = publish (relay_event (relay_of m)) c

module _ (k : Etcd) (j : Codecs) where
  abbrev health_put : Text → Option RelayHealth → EtcdCoordinator k.E → EtcdCoordinator k.E
  health_put relay_id none c = c
  health_put relay_id (some h) c =
      let (e, r) = get_relay_info k j relay_id c.etcd in
      publish_health relay_id h (publish (relay_health_event r h) (at_etcd e c))

  -- handleEtcdEvent
  unfoldable pub handle_etcd_event : EtcdEvent → EtcdCoordinator k.E → EtcdCoordinator k.E
  unfolding publish publish_health get_relay_info
  handle_etcd_event ev c =
      let key = ev.kv.key in
      let value = ev.kv.value in
      if has_prefix key leases_prefix
      then (if ev.deleted
          then publish (released_event (gone_lease (trim_prefix key leases_prefix))) c
          else lease_put (j.lease.unmarshal value) c)
      else if has_prefix key relays_prefix
      then (if ev.deleted
          then publish (relay_event (gone_relay (trim_prefix key relays_prefix))) c
          else relay_put (j.relay.unmarshal value) c)
      else if has_prefix key health_prefix
      then (if ev.deleted
          then c
          else health_put (trim_prefix key health_prefix) (j.health.unmarshal value) c)
      else c

  -- The loop of watchLoop over the events that it receives
  unfoldable pub watch_loop : List EtcdEvent → EtcdCoordinator k.E → EtcdCoordinator k.E
  unfolding handle_etcd_event
  watch_loop [] c = c
  watch_loop (ev ∷ evs) c = watch_loop evs (handle_etcd_event ev c)
