-- ===== src/Registry/Etcd/Stored/Found.antt =====
-- internal/registry/etcd_coordinator.go: CurrentLease after AcquireLease.
use tunneledge.Common.{
  Text, time_add, ℕ, ◌≡◌, refl, sym, ap, subst, ◌∙◌, false, ◌||◌, List, ◌++◌, Option, none, some,
  is_empty, text_eq, arith, Bool-cases, inl, inr,
}
use tunneledge.Domain.{Lease, LeaseRequest, lease_expired, next_version}
use tunneledge.Errs.{Result, ok, err}
use tunneledge.Registry.Etcd.{
  Reply, replied, failed, KeyValue, TxnResponse, Etcd, LeaseMeta, Json, Codecs, EtcdCoordinator,
  leases_prefix, first_meta, lease_of, Answer, at_etcd, acquire_lease, committed, marshalled,
  granted, owned_already, granted_again, put_again, new_meta, whole_seconds,
}
use tunneledge.Registry.Etcd.Renewal.{current_lease, looked_up}
use tunneledge.Registry.Etcd.Stored.{pairs, Answers, Commits, Puts, Quiet, Encodes}

-- The value that a key holds, and the lease that it codes.
record Held (j : Json LeaseMeta) (o : Option Text) (l : Lease) : Type 0 where
  value : Text
  meta : LeaseMeta
  at : o ≡ some value
  decodes : j.unmarshal value ≡ some meta
  lease_is : lease_of meta ≡ l

abbrev value_or : Lease → Result Lease → Lease
value_or l (err e) = l
value_or l (ok a) = a

module _ (k : Etcd) (j : Codecs) (q : Quiet k) (codes : Encodes j.lease) (req : LeaseRequest)
    (later : ℕ) where
  abbrev tunnel_key : Text
  tunnel_key = leases_prefix ++ req.tunnel_id

  -- A success leaves its lease under the tunnel's key.
  abbrev Leaves : Answer k.E → Type 0
  Leaves (c, err e) = Unit
  Leaves (c, ok l) = Held j.lease (q.stored c.etcd tunnel_key) l

  abbrev again : LeaseMeta → ℕ → ℕ → LeaseMeta
  again m id expires_at = record m {
    version = next_version m.version;
    expires_at = expires_at;
    etcd_lease = id;
  }

  put_again-Leaves :
      (c : EtcdCoordinator k.E) (m : LeaseMeta) (e : k.E) (r : Reply (Unit {0}))
      → Puts (codes.coded m) (q.stored e tunnel_key) r
      → Leaves (put_again k j c m (e, r))
  put_again-Leaves c m e (failed message) h = tt
  put_again-Leaves c m e (replied u) h = record {
    value = codes.coded m;
    meta = m;
    at = h;
    decodes = codes.unmarshals m;
    lease_is = refl;
  }

  granted_again-Leaves :
      (c : EtcdCoordinator k.E) (expires_at : ℕ) (m : LeaseMeta) (e : k.E) (r : Reply ℕ)
      → Leaves (granted_again k j c tunnel_key expires_at m (e, r))
  granted_again-Leaves c expires_at m e (failed message) = tt
  granted_again-Leaves c expires_at m e (replied id) = rw (codes.marshals (again m id expires_at)) (
      put_again-Leaves c (again m id expires_at) _ _
        (q.putting tunnel_key (codes.coded (again m id expires_at)) id e))

  owned_already-Leaves :
      (c : EtcdCoordinator k.E) (o : Option LeaseMeta)
      → Leaves (owned_already k j c tunnel_key later req o)
  owned_already-Leaves c none = tt
  owned_already-Leaves c (some m) = elim (Bool-cases (text_eq m.relay_id req.relay_id)) [
    | inl same ↦ rw same (
        granted_again-Leaves c (time_add later req.ttl) m (k.grant (whole_seconds req.ttl) c.etcd).0
          (k.grant (whole_seconds req.ttl) c.etcd).1)
    | inr other ↦ rw other tt
  ]

  committed-Leaves :
      (c : EtcdCoordinator k.E) (m : LeaseMeta) (before : Option Text) (e : k.E)
      (r : Reply TxnResponse)
      → Commits tunnel_key (codes.coded m) before (q.stored e tunnel_key) r
      → Leaves (committed k j c later req m (e, r))
  committed-Leaves c m before e (failed message) h = tt
  committed-Leaves c m none e (replied r) (won, now) = rw won (record {
    value = codes.coded m;
    meta = m;
    at = now;
    decodes = codes.unmarshals m;
    lease_is = refl;
  })
  committed-Leaves c m (some v) e (replied r) (lost, now, kvs) =
      rw lost
        (owned_already-Leaves (at_etcd (k.revoke m.etcd_lease e).0 c) (first_meta j.lease r.kvs))

  marshalled-Leaves :
      (c : EtcdCoordinator k.E) (m : LeaseMeta)
      → Leaves (marshalled k j c later req m (j.lease.marshal m))
  marshalled-Leaves c m = rw (codes.marshals m) (
      committed-Leaves c m (q.stored c.etcd tunnel_key)
        (k.create tunnel_key (codes.coded m) m.etcd_lease c.etcd).0
        (k.create tunnel_key (codes.coded m) m.etcd_lease c.etcd).1
        (q.creating tunnel_key (codes.coded m) m.etcd_lease c.etcd))

  granted-Leaves :
      (c : EtcdCoordinator k.E) (now : ℕ) (fresh : Text) (e : k.E) (r : Reply ℕ)
      → Leaves (granted k j c now later fresh req (e, r))
  granted-Leaves c now fresh e (failed message) = tt
  granted-Leaves c now fresh e (replied id) =
      marshalled-Leaves (at_etcd e c) (new_meta k j req now fresh id)

  acquire_lease-Leaves :
      (c : EtcdCoordinator k.E) (now : ℕ) (fresh : Text)
      → Leaves (acquire_lease k j req now later fresh c)
  unfolding acquire_lease
  acquire_lease-Leaves c now fresh =
      elim (Bool-cases (is_empty req.tunnel_id || is_empty req.relay_id)) [
        | inl bad ↦ rw bad tt
        | inr good ↦ rw good (
            granted-Leaves c now fresh (k.grant (whole_seconds req.ttl) c.etcd).0
              (k.grant (whole_seconds req.ttl) c.etcd).1)
      ]

  -- The look-up of a key that holds a lease
  looked_up-Held :
      (c : EtcdCoordinator k.E) (l : Lease) (t : ℕ) (e : k.E) (o : Option Text)
      (kvs : List KeyValue)
      → Held j.lease o l
      → kvs ≡ pairs tunnel_key o
      → lease_expired l t ≡ false
      → (looked_up k j c t (e, replied kvs)).1 ≡ some l
  looked_up-Held c l t e o kvs h found live =
      rw (found, h.at, h.decodes)
        (rw (ap (λ l. lease_expired l t) h.lease_is ∙ live) (ap some h.lease_is))

  -- A success, the Get behind it, and what the Get finds
  found :
      (a : Answer k.E) (l : Lease) (kvs : List KeyValue) (t : ℕ)
      → Leaves a
      → a.1 ≡ ok l
      → (k.get_key tunnel_key a.0.etcd).1 ≡ replied kvs
      → lease_expired l t ≡ false
      → (current_lease k j req.tunnel_id t a.0).1 ≡ some l
  unfolding current_lease
  found (c, err e) l kvs t h is got live = ground arith
  found (c, ok l') l kvs t h is got live =
      subst (λ r. (looked_up k j c t ((k.get_key tunnel_key c.etcd).0, r)).1 ≡ some l) (sym got)
        (looked_up-Held c l t (k.get_key tunnel_key c.etcd).0 (q.stored c.etcd tunnel_key) kvs
          (subst (Held j.lease (q.stored c.etcd tunnel_key)) (ap (value_or l') is) h)
          (subst (Answers tunnel_key (q.stored c.etcd tunnel_key)) got
            (q.getting tunnel_key c.etcd))
          live)

-- Where etcd does as it documents and leases encode, the lease that AcquireLease returns, for a first
-- acquisition as for one by the same relay again, is what CurrentLease finds for the tunnel next, if
-- its Get is answered and the lease's time has not passed.
pub acquire_lease-current_lease :
    (k : Etcd) (j : Codecs) (q : Quiet k) (codes : Encodes j.lease) (req : LeaseRequest)
    (now later t : ℕ) (fresh : Text) (l : Lease) (kvs : List KeyValue) (c : EtcdCoordinator k.E)
    → (acquire_lease k j req now later fresh c).1 ≡ ok l
    → (k.get_key
        (leases_prefix ++ req.tunnel_id)
        (acquire_lease k j req now later fresh c).0.etcd).1
      ≡ replied kvs
    → lease_expired l t ≡ false
    → (current_lease k j req.tunnel_id t (acquire_lease k j req now later fresh c).0).1 ≡ some l
acquire_lease-current_lease k j q codes req now later t fresh l kvs c is got live =
    found k j q codes req later (acquire_lease k j req now later fresh c) l kvs t
      (acquire_lease-Leaves k j q codes req later c now fresh) is got live
