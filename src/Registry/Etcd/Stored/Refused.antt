-- ===== src/Registry/Etcd/Stored/Refused.antt =====
-- internal/registry/etcd_coordinator.go: AcquireLease of a tunnel that another relay has.
use tunneledge.Common.{
  Text, ℕ, ◌≡◌, refl, subst, ◌∙◌, false, ◌||◌, ◌++◌, Option, some, is_empty, text_eq, Bool-cases,
  inl, inr,
}
use tunneledge.Domain.{LeaseRequest}
use tunneledge.Registry.Server.{is_ok}
use tunneledge.Registry.Etcd.{
  Reply, replied, failed, TxnResponse, Etcd, LeaseMeta, Codecs, EtcdCoordinator, leases_prefix,
  at_etcd, acquire_lease, committed, marshalled, granted, new_meta, whole_seconds,
}
use tunneledge.Registry.Etcd.Stored.{Commits, Quiet}

module _ (k : Etcd) (j : Codecs) (q : Quiet k) (req : LeaseRequest) (later : ℕ) (v : Text)
    (m : LeaseMeta) (decodes : j.lease.unmarshal v ≡ some m)
    (other : text_eq m.relay_id req.relay_id ≡ false) where
  committed-refused :
      (c : EtcdCoordinator k.E) (n : LeaseMeta) (e : k.E) (payload : Text) (now : Option Text)
      (r : Reply TxnResponse)
      → Commits (leases_prefix ++ req.tunnel_id) payload (some v) now r
      → is_ok (committed k j c later req n (e, r)).1 ≡ false
  committed-refused c n e payload now (failed message) h = refl
  committed-refused c n e payload now (replied r) (missed, kept, kvs) =
      rw (missed, kvs, decodes) (rw other refl)

  marshalled-refused :
      (c : EtcdCoordinator k.E) (n : LeaseMeta) (r : Reply Text)
      → q.stored c.etcd (leases_prefix ++ req.tunnel_id) ≡ some v
      → is_ok (marshalled k j c later req n r).1 ≡ false
  marshalled-refused c n (failed message) h = refl
  marshalled-refused c n (replied payload) h =
      committed-refused c n
        (k.create (leases_prefix ++ req.tunnel_id) payload n.etcd_lease c.etcd).0 payload
        (q.stored (k.create (leases_prefix ++ req.tunnel_id) payload n.etcd_lease c.etcd).0
          (leases_prefix ++ req.tunnel_id))
        (k.create (leases_prefix ++ req.tunnel_id) payload n.etcd_lease c.etcd).1
        (subst
          (λ o.
            Commits (leases_prefix ++ req.tunnel_id) payload o
              (q.stored (k.create (leases_prefix ++ req.tunnel_id) payload n.etcd_lease c.etcd).0
                (leases_prefix ++ req.tunnel_id))
              (k.create (leases_prefix ++ req.tunnel_id) payload n.etcd_lease c.etcd).1)
          h (q.creating (leases_prefix ++ req.tunnel_id) payload n.etcd_lease c.etcd))

  granted-refused :
      (c : EtcdCoordinator k.E) (now : ℕ) (fresh : Text) (e : k.E) (r : Reply ℕ)
      → q.stored e (leases_prefix ++ req.tunnel_id) ≡ some v
      → is_ok (granted k j c now later fresh req (e, r)).1 ≡ false
  granted-refused c now fresh e (failed message) h = refl
  granted-refused c now fresh e (replied id) h =
      marshalled-refused (at_etcd e c) (new_meta k j req now fresh id)
        (j.lease.marshal (new_meta k j req now fresh id)) h

-- Where etcd does as it documents, AcquireLease fails for every relay but the one that the tunnel's stored
-- lease names, even after that lease's own time: etcd alone ends it.
pub acquire_lease-refused :
    (k : Etcd) (j : Codecs) (q : Quiet k) (req : LeaseRequest) (now later : ℕ) (fresh v : Text)
    (m : LeaseMeta) (c : EtcdCoordinator k.E)
    → q.stored c.etcd (leases_prefix ++ req.tunnel_id) ≡ some v
    → j.lease.unmarshal v ≡ some m
    → text_eq m.relay_id req.relay_id ≡ false
    → is_ok (acquire_lease k j req now later fresh c).1 ≡ false
unfolding acquire_lease
acquire_lease-refused k j q req now later fresh v m c at decodes other =
    elim (Bool-cases (is_empty req.tunnel_id || is_empty req.relay_id)) [
      | inl bad ↦ rw bad refl
      | inr good ↦ rw good (
          granted-refused k j q req later v m decodes other c now fresh
            (k.grant (whole_seconds req.ttl) c.etcd).0 (k.grant (whole_seconds req.ttl) c.etcd).1
            (q.granting (whole_seconds req.ttl) c.etcd (leases_prefix ++ req.tunnel_id) ∙ at))
    ]
