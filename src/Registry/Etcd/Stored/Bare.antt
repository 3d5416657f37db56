-- ===== src/Registry/Etcd/Stored/Bare.antt =====
-- internal/registry/etcd_coordinator.go: AcquireLease leaves nothing under the bare prefix of the leases'
-- keys.
use tunneledge.Common.{
  Text, time_add, ℕ, ◌≡◌, ◌≢◌, ap, ◌∙◌, false, ◌++◌, Option, none, some, is_empty, is_empty_iff,
  drop, text_eq, arith, Bool-cases, inl, inr,
}
use tunneledge.Domain.{LeaseRequest}
use tunneledge.Registry.Etcd.{
  Reply, replied, failed, TxnResponse, Etcd, LeaseMeta, Codecs, EtcdCoordinator, leases_prefix,
  first_meta, at_etcd, acquire_lease, committed, marshalled, granted, owned_already, granted_again,
  put_again, new_meta, whole_seconds,
}
use tunneledge.Registry.Etcd.Stored.{Quiet}

module _ (k : Etcd) (j : Codecs) (q : Quiet k) where
  -- Nothing stands under the bare prefix.
  unfoldable pub IsBare : EtcdCoordinator k.E → Type 0
  IsBare c = q.stored c.etcd leases_prefix ≡ none

-- A tunnel's key is not the bare prefix.
tunnel_key-longer : (t : Text) → is_empty t ≡ false → leases_prefix ++ t ≢ leases_prefix
tunnel_key-longer t named same = ground (arith, ap (drop 19) same, is_empty_iff t, named)

module _ (k : Etcd) (j : Codecs) (q : Quiet k) (req : LeaseRequest) (later : ℕ)
    (named : is_empty req.tunnel_id ≡ false) where
  abbrev tunnel_key : Text
  tunnel_key = leases_prefix ++ req.tunnel_id

  abbrev Bare : k.E → Type 0
  Bare e = q.stored e leases_prefix ≡ none

  longer : tunnel_key ≢ leases_prefix
  longer = tunnel_key-longer req.tunnel_id named

  put_again-Bare :
      (c : EtcdCoordinator k.E) (m : LeaseMeta) (e : k.E) (r : Reply (Unit {0}))
      → Bare e
      → Bare (put_again k j c m (e, r)).0.etcd
  put_again-Bare c m e (failed message) b = q.revoking m.etcd_lease e leases_prefix b
  put_again-Bare c m e (replied u) b = b

  granted_again-Bare :
      (c : EtcdCoordinator k.E) (expires_at : ℕ) (m : LeaseMeta) (e : k.E) (r : Reply ℕ)
      → Bare e
      → Bare (granted_again k j c tunnel_key expires_at m (e, r)).0.etcd
  granted_again-Bare c expires_at m e (failed message) b = b
  granted_again-Bare c expires_at m e (replied id) b =
      put_again-Bare c _ _ _ (q.putting_other tunnel_key _ id e leases_prefix longer b)

  owned_already-Bare :
      (c : EtcdCoordinator k.E) (o : Option LeaseMeta)
      → Bare c.etcd
      → Bare (owned_already k j c tunnel_key later req o).0.etcd
  owned_already-Bare c none b = b
  owned_already-Bare c (some m) b = elim (Bool-cases (text_eq m.relay_id req.relay_id)) [
    | inl same ↦ rw same (
        granted_again-Bare c (time_add later req.ttl) m (k.grant (whole_seconds req.ttl) c.etcd).0
          (k.grant (whole_seconds req.ttl) c.etcd).1
          (q.granting (whole_seconds req.ttl) c.etcd leases_prefix ∙ b))
    | inr other ↦ rw other b
  ]

  committed-Bare :
      (c : EtcdCoordinator k.E) (m : LeaseMeta) (e : k.E) (r : Reply TxnResponse)
      → Bare e
      → Bare (committed k j c later req m (e, r)).0.etcd
  committed-Bare c m e (failed message) b = q.revoking m.etcd_lease e leases_prefix b
  committed-Bare c m e (replied r) b = elim (Bool-cases r.succeeded) [
    | inl won ↦ rw won b
    | inr lost ↦ rw lost (
        owned_already-Bare (at_etcd (k.revoke m.etcd_lease e).0 c) (first_meta j.lease r.kvs)
          (q.revoking m.etcd_lease e leases_prefix b))
  ]

  marshalled-Bare :
      (c : EtcdCoordinator k.E) (m : LeaseMeta) (r : Reply Text)
      → Bare c.etcd
      → Bare (marshalled k j c later req m r).0.etcd
  marshalled-Bare c m (failed message) b = q.revoking m.etcd_lease c.etcd leases_prefix b
  marshalled-Bare c m (replied payload) b =
      committed-Bare c m (k.create tunnel_key payload m.etcd_lease c.etcd).0
        (k.create tunnel_key payload m.etcd_lease c.etcd).1
        (q.creating_other tunnel_key payload m.etcd_lease c.etcd leases_prefix longer b)

  granted-Bare :
      (c : EtcdCoordinator k.E) (now : ℕ) (fresh : Text) (e : k.E) (r : Reply ℕ)
      → Bare e
      → Bare (granted k j c now later fresh req (e, r)).0.etcd
  granted-Bare c now fresh e (failed message) b = b
  granted-Bare c now fresh e (replied id) b =
      marshalled-Bare (at_etcd e c) (new_meta k j req now fresh id)
        (j.lease.marshal (new_meta k j req now fresh id)) b

module _ (k : Etcd) (j : Codecs) (q : Quiet k) where
  pub acquire_lease-IsBare :
      (req : LeaseRequest) (now later : ℕ) (fresh : Text) (c : EtcdCoordinator k.E)
      → IsBare k j q c
      → IsBare k j q (acquire_lease k j req now later fresh c).0
  unfolding acquire_lease IsBare
  acquire_lease-IsBare req now later fresh c b = elim (Bool-cases (is_empty req.tunnel_id)) [
    | inl bad ↦ rw bad b
    | inr good ↦ elim (Bool-cases (is_empty req.relay_id)) [
      | inl bad ↦ rw (good, bad) b
      | inr fine ↦
          rw (good, fine)
            (granted-Bare k j q req later good c now fresh
              (k.grant (whole_seconds req.ttl) c.etcd).0 (k.grant (whole_seconds req.ttl) c.etcd).1
              (q.granting (whole_seconds req.ttl) c.etcd leases_prefix ∙ b))
    ]
  ]
