-- ===== src/Registry/Etcd.antt =====
-- internal/registry/etcd_coordinator.go: EtcdCoordinator. The etcd client and encoding/json are parameters,
-- and `now` is what time.Now returns.
pub mod Renewal
pub mod Watching
pub mod Stored
use tunneledge.Common.{
  Text, String, ℕ, ℤ, pos, negsuc, time_add, ◌+◌, ◌/◌, Bool, true, false, ltb, List, [], ◌∷◌, ◌++◌,
  Option, none, some, codes, is_empty, text_eq, if◌then◌else◌, ◌||◌,
}
use tunneledge.Common.Maps.{Dict, get, put, remove}
use tunneledge.Domain.{Lease, LeaseRequest, RelayInfo, RelayHealth, next_version}
use tunneledge.Errs.{
  Result, ok, err, rpc, rpc_invalid_argument, rpc_not_found, rpc_already_exists, rpc_internal,
  rpc_unavailable,
}
use tunneledge.Registry.Coordinator.{EventSub, HealthSub}
use tunneledge.Registry.Wire.{second}

-- What a call of a library answers: a value, or an error that prints as a text.
pub data Reply (A : Type 0) : Type 0 where
  replied : A → Reply A
  failed : Text → Reply A

pub record KeyValue : Type 0 where
  pub key : Text
  pub value : Text

-- What the coordinator reads of a transaction's response: whether its comparison held, and the pairs of
-- the first response.
pub record TxnResponse : Type 0 where
  pub succeeded : Bool
  pub kvs : List KeyValue

-- The etcd client. `create key value lease` is the transaction of AcquireLease: if the key's version is 0,
-- put the value with the lease, else get the key. The lease of `put_key` is optional.
pub record Etcd : Type 1 where
  pub E : Type 0
  pub grant : ℕ → E → E × Reply ℕ
  pub revoke : ℕ → E → E × Reply (Unit {0})
  pub keep_alive_once : ℕ → E → E × Reply (Unit {0})
  pub create : Text → Text → ℕ → E → E × Reply TxnResponse
  pub get_key : Text → E → E × Reply (List KeyValue)
  pub get_prefix : Text → E → E × Reply (List KeyValue)
  pub put_key : Text → Text → Option ℕ → E → E × Reply (Unit {0})

-- leaseMeta
pub record LeaseMeta : Type 0 where
  pub lease_id : Text
  pub tunnel_id : Text
  pub relay_id : Text
  pub expires_at : ℕ
  pub version : ℕ
  pub etcd_lease : ℕ

-- relayMeta
pub record RelayMeta : Type 0 where
  pub relay_id : Text
  pub advertise_addr : Text
  pub state : Text
  pub active_tunnels : ℕ
  pub active_streams : ℕ
  pub last_seen : ℕ

-- json.Marshal and json.Unmarshal at one type; `none` is an error of Unmarshal.
pub record Json (A : Type 0) : Type 0 where
  pub marshal : A → Reply Text
  pub unmarshal : Text → Option A

pub record Codecs : Type 0 where
  pub lease : Json LeaseMeta
  pub relay : Json RelayMeta
  pub health : Json RelayHealth

-- EtcdCoordinator
pub record EtcdCoordinator (E : Type 0) : Type 0 where
  pub etcd : E
  pub etcd_lease_of : Dict ℕ
  pub event_subs : List EventSub
  pub health_subs : List HealthSub
  pub next_id : ℕ

-- etcdKeyPrefixLeases, etcdKeyPrefixRelays and etcdKeyPrefixHealth
abbrev pub leases_prefix : Text
leases_prefix = codes "/tunneledge/leases/"

abbrev pub relays_prefix : Text
relays_prefix = codes "/tunneledge/relays/"

abbrev pub health_prefix : Text
health_prefix = codes "/tunneledge/health/"

-- The domain.Lease that the coordinator makes of a stored one.
abbrev pub lease_of : LeaseMeta → Lease
lease_of m = record {
  lease_id = m.lease_id;
  tunnel_id = m.tunnel_id;
  relay_id = m.relay_id;
  expires_at = m.expires_at;
  version = m.version;
}

-- payload, _ = json.Marshal(…)
abbrev pub or_nothing : Reply Text → Text
or_nothing (replied v) = v
or_nothing (failed e) = []

-- max(int64(req.TTL.Seconds()), 1)
abbrev pub whole_seconds : ℤ → ℕ
whole_seconds (pos ttl) = if ltb (ttl / second) 1 then 1 else ttl / second
whole_seconds (negsuc n) = 1

abbrev pub Answer : Type 0 → Type 0
Answer E = EtcdCoordinator E × Result Lease

abbrev pub at_etcd : {E : Type 0} → E → EtcdCoordinator E → EtcdCoordinator E
at_etcd e c = record c { etcd = e }

-- c.etcdLeaseOf[leaseID] = id
abbrev pub remember : {E : Type 0} → Text → ℕ → EtcdCoordinator E → EtcdCoordinator E
remember lease_id id c = record c { etcd_lease_of = put c.etcd_lease_of lease_id id }

abbrev pub unavailable_because : {E : Type 0} → EtcdCoordinator E → String → Text → Answer E
unavailable_because c format message = (c, err (rpc rpc_unavailable format (message ∷ [])))

-- The lease of the first pair, if it decodes
abbrev pub first_meta : Json LeaseMeta → List KeyValue → Option LeaseMeta
first_meta j [] = none
first_meta j (kv ∷ kvs) = j.unmarshal kv.value

module _ (k : Etcd) (j : Codecs) where
  -- AcquireLease of the lease's own relay, after the Put
  abbrev put_again : EtcdCoordinator k.E → LeaseMeta → k.E × Reply (Unit {0}) → Answer k.E
  put_again c m (e, failed message) =
      unavailable_because (at_etcd (k.revoke m.etcd_lease e).0 c) "etcd put: %v" message
  put_again c m (e, replied u) = (remember m.lease_id m.etcd_lease (at_etcd e c), ok (lease_of m))

  -- … after the second Grant
  abbrev granted_again : EtcdCoordinator k.E → Text → ℕ → LeaseMeta → k.E × Reply ℕ → Answer k.E
  granted_again c key expires_at m (e, failed message) =
      unavailable_because (at_etcd e c) "etcd grant: %v" message
  granted_again c key expires_at m (e, replied id) =
      let m' = record m {
        version = next_version m.version;
        expires_at = expires_at;
        etcd_lease = id;
      } in
      put_again c m' (k.put_key key (or_nothing (j.lease.marshal m')) (some id) e)

  -- … from the lease that the key holds
  abbrev owned_already :
      EtcdCoordinator k.E → Text → ℕ → LeaseRequest → Option LeaseMeta → Answer k.E
  owned_already c key now req none =
      (c, err (rpc rpc_already_exists "tunnel %s already leased" (req.tunnel_id ∷ [])))
  owned_already c key now req (some m) =
      if text_eq m.relay_id req.relay_id
      then granted_again c key (time_add now req.ttl) m (k.grant (whole_seconds req.ttl) c.etcd)
      else (
        c,
        err (
            rpc rpc_already_exists "tunnel %s already leased by relay %s"
              (req.tunnel_id ∷ m.relay_id ∷ [])),
      )

  -- … after the transaction
  abbrev committed :
      EtcdCoordinator k.E → ℕ → LeaseRequest → LeaseMeta → k.E × Reply TxnResponse → Answer k.E
  committed c now req m (e, failed message) =
      unavailable_because (at_etcd (k.revoke m.etcd_lease e).0 c) "etcd txn: %v" message
  committed c now req m (e, replied r) =
      if r.succeeded
      then (remember m.lease_id m.etcd_lease (at_etcd e c), ok (lease_of m))
      else owned_already (at_etcd (k.revoke m.etcd_lease e).0 c) (leases_prefix ++ req.tunnel_id)
          now req (first_meta j.lease r.kvs)

  -- … after the marshalling of the new lease
  abbrev marshalled : EtcdCoordinator k.E → ℕ → LeaseRequest → LeaseMeta → Reply Text → Answer k.E
  marshalled c now req m (failed message) = (
    at_etcd (k.revoke m.etcd_lease c.etcd).0 c,
    err (rpc rpc_internal "marshal: %v" (message ∷ [])),
  )
  marshalled c now req m (replied payload) =
      committed c now req m (k.create (leases_prefix ++ req.tunnel_id) payload m.etcd_lease c.etcd)

  abbrev new_meta : LeaseRequest → ℕ → Text → ℕ → LeaseMeta
  new_meta req now fresh id = record {
    lease_id = fresh;
    tunnel_id = req.tunnel_id;
    relay_id = req.relay_id;
    expires_at = time_add now req.ttl;
    version = 1;
    etcd_lease = id;
  }

  -- … after the first Grant
  abbrev granted : EtcdCoordinator k.E → ℕ → ℕ → Text → LeaseRequest → k.E × Reply ℕ → Answer k.E
  granted c now later fresh req (e, failed message) =
      unavailable_because (at_etcd e c) "etcd grant: %v" message
  granted c now later fresh req (e, replied id) =
      let m = new_meta req now fresh id in marshalled (at_etcd e c) later req m (j.lease.marshal m)

  -- AcquireLease: `fresh` is the UUID, and `later` the time at which a lease is acquired again.
  unfoldable pub acquire_lease : LeaseRequest → ℕ → ℕ → Text → EtcdCoordinator k.E → Answer k.E
  acquire_lease req now later fresh c =
      if is_empty req.tunnel_id || is_empty req.relay_id
      then (c, err (rpc rpc_invalid_argument "tunnel_id and relay_id are required" []))
      else granted c now later fresh req (k.grant (whole_seconds req.ttl) c.etcd)
