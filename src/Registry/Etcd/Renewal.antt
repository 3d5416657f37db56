-- ===== src/Registry/Etcd/Renewal.antt =====
-- internal/registry/etcd_coordinator.go: RenewLease, ReleaseLease and CurrentLease.
use tunneledge.Common.{
  Text, ℤ, time_add, ℕ, ltb, List, [], ◌∷◌, ◌++◌, Option, none, some, is_empty, text_eq,
  if◌then◌else◌,
}
use tunneledge.Common.Maps.{get, remove}
use tunneledge.Domain.{Lease, next_version}
use tunneledge.Errs.{ok, err, rpc, rpc_invalid_argument, rpc_not_found}
use tunneledge.Registry.Etcd.{
  Reply, replied, failed, KeyValue, Etcd, LeaseMeta, Codecs, EtcdCoordinator, leases_prefix,
  lease_of, or_nothing, Answer, at_etcd, unavailable_because, first_meta,
}

module _ (k : Etcd) (j : Codecs) where
  -- A pair in the loop of RenewLease, before those of `rest`. A failure of its Put is ignored.
  abbrev renew_one :
      EtcdCoordinator k.E → Text → ℕ → ℕ → Text → Answer k.E → Option LeaseMeta → Answer k.E
  renew_one c lease_id id expires_at key rest none = rest
  renew_one c lease_id id expires_at key rest (some m) =
      let m' = record m { expires_at = expires_at; version = next_version m.version } in
      if text_eq m.lease_id lease_id
      then (
        at_etcd (k.put_key key (or_nothing (j.lease.marshal m')) (some id) c.etcd).0 c,
        ok (lease_of m'),
      )
      else rest

  -- The loop of RenewLease over the pairs that Get answers.
  unfoldable pub renew_among : EtcdCoordinator k.E → Text → ℕ → ℕ → List KeyValue → Answer k.E
  renew_among c lease_id id expires_at [] =
      (c, err (rpc rpc_not_found "lease %s not found after keepalive" (lease_id ∷ [])))
  renew_among c lease_id id expires_at (kv ∷ kvs) =
      renew_one c lease_id id expires_at kv.key (renew_among c lease_id id expires_at kvs)
        (j.lease.unmarshal kv.value)

  abbrev pub read_back :
      EtcdCoordinator k.E → Text → ℕ → ℕ → k.E × Reply (List KeyValue) → Answer k.E
  read_back c lease_id id expires_at (e, failed message) =
      unavailable_because (at_etcd e c) "etcd get: %v" message
  read_back c lease_id id expires_at (e, replied kvs) =
      renew_among (at_etcd e c) lease_id id expires_at kvs

  abbrev pub kept_alive : EtcdCoordinator k.E → Text → ℕ → ℕ → k.E × Reply (Unit {0}) → Answer k.E
  kept_alive c lease_id id expires_at (e, failed message) =
      unavailable_because (at_etcd e c) "keepalive: %v" message
  kept_alive c lease_id id expires_at (e, replied u) =
      read_back (at_etcd e c) lease_id id expires_at (k.get_key leases_prefix e)

  abbrev pub renew_known : EtcdCoordinator k.E → Text → ℕ → Option ℕ → Answer k.E
  renew_known c lease_id expires_at none =
      (c, err (rpc rpc_not_found "lease %s not found" (lease_id ∷ [])))
  renew_known c lease_id expires_at (some id) =
      kept_alive c lease_id id expires_at (k.keep_alive_once id c.etcd)

  -- RenewLease. The key that it reads is the bare prefix.
  unfoldable pub renew_lease : Text → ℤ → ℕ → EtcdCoordinator k.E → Answer k.E
  unfolding renew_among
  renew_lease lease_id ttl now c =
      if is_empty lease_id
      then (c, err (rpc rpc_invalid_argument "lease_id is required" []))
      else renew_known c lease_id (time_add now ttl) (get c.etcd_lease_of lease_id)

  abbrev only_id : Text → Lease
  only_id lease_id = record {
    lease_id = lease_id;
    tunnel_id = [];
    relay_id = [];
    expires_at = 0;
    version = 0;
  }

  abbrev pub release_known : EtcdCoordinator k.E → Text → Option ℕ → Answer k.E
  release_known c lease_id none = (c, err (rpc rpc_not_found "lease %s not found" (lease_id ∷ [])))
  release_known c lease_id (some id) = (
    record c { etcd = (k.revoke id c.etcd).0; etcd_lease_of = remove c.etcd_lease_of lease_id },
    ok (only_id lease_id),
  )

  -- ReleaseLease. A failure of Revoke is only logged.
  unfoldable pub release_lease : Text → EtcdCoordinator k.E → Answer k.E
  release_lease lease_id c =
      if is_empty lease_id
      then (c, err (rpc rpc_invalid_argument "lease_id is required" []))
      else release_known c lease_id (get c.etcd_lease_of lease_id)

  abbrev unless_expired : ℕ → Option LeaseMeta → Option Lease
  unless_expired now none = none
  unless_expired now (some m) = if ltb m.expires_at now then none else some (lease_of m)

  abbrev pub looked_up :
      EtcdCoordinator k.E → ℕ → k.E × Reply (List KeyValue) → EtcdCoordinator k.E × Option Lease
  looked_up c now (e, failed message) = (at_etcd e c, none)
  looked_up c now (e, replied kvs) = (at_etcd e c, unless_expired now (first_meta j.lease kvs))

  -- CurrentLease
  unfoldable pub current_lease : Text → ℕ → EtcdCoordinator k.E → EtcdCoordinator k.E × Option Lease
  current_lease tunnel_id now c = looked_up c now (k.get_key (leases_prefix ++ tunnel_id) c.etcd)

  -- ReleaseExpiredLeases
  abbrev pub release_expired_leases : EtcdCoordinator k.E → EtcdCoordinator k.E × List Lease
  release_expired_leases c = (c, [])
