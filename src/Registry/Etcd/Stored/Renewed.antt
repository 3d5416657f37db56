-- ===== src/Registry/Etcd/Stored/Renewed.antt =====
-- internal/registry/etcd_coordinator.go: RenewLease reads the bare prefix of the leases' keys, which no lease
-- stands under.
use tunneledge.Common.{
  Text, ℤ, time_add, ℕ, ◌≡◌, refl, subst, ◌∙◌, false, List, ◌++◌, Option, none, some, is_empty,
  Bool-cases, inl, inr,
}
use tunneledge.Common.Maps.{get}
use tunneledge.Domain.{LeaseRequest}
use tunneledge.Registry.Server.{is_ok}
use tunneledge.Registry.Etcd.{
  Reply, replied, failed, KeyValue, Etcd, Codecs, EtcdCoordinator, leases_prefix, Answer,
  acquire_lease,
}
use tunneledge.Registry.Etcd.Renewal.{
  release_lease, release_known, renew_lease, current_lease, kept_alive, read_back, renew_known,
  renew_among, looked_up,
}
use tunneledge.Registry.Etcd.Stored.{Answers, Quiet}
use tunneledge.Registry.Etcd.Stored.Bare.{IsBare}
use tunneledge.Registry.Etcd.Stored.Bare.{acquire_lease-IsBare}

module _ (k : Etcd) (j : Codecs) (q : Quiet k) where
  renew_lease-refused :
      (id : Text) (ttl : ℤ) (now : ℕ) (c : EtcdCoordinator k.E)
      → IsBare k j q c
      → is_ok (renew_lease k j id ttl now c).1 ≡ false
        × IsBare k j q (renew_lease k j id ttl now c).0
  unfolding renew_lease IsBare renew_among
  renew_lease-refused id ttl now c bare = elim (Bool-cases (is_empty id)) [
    | inl bad ↦ rw bad (refl, bare)
    | inr good ↦ rw good (known (get c.etcd_lease_of id))
  ]
    where
      Fails : Answer k.E → Type 0
      Fails a = (is_ok a.1 ≡ false) × (q.stored a.0.etcd leases_prefix ≡ none)

      none_found :
          (n : ℕ) (e : k.E) (r : Reply (List KeyValue))
          → q.stored e leases_prefix ≡ none
          → Answers leases_prefix none r
          → Fails (read_back k j c id n (time_add now ttl) (e, r))
      none_found n e (failed message) s h = (refl, s)
      none_found n e (replied kvs) s h = rw h (refl, s)

      alive :
          (n : ℕ) (e : k.E) (r : Reply (Unit {0}))
          → q.stored e leases_prefix ≡ none
          → Fails (kept_alive k j c id n (time_add now ttl) (e, r))
      alive n e (failed message) s = (refl, s)
      alive n e (replied u) s =
          none_found n (k.get_key leases_prefix e).0 (k.get_key leases_prefix e).1
            (q.reading leases_prefix e leases_prefix s)
            (subst (λ o. Answers leases_prefix o (k.get_key leases_prefix e).1) s
              (q.getting leases_prefix e))

      known : (o : Option ℕ) → Fails (renew_known k j c id (time_add now ttl) o)
      known none = (refl, bare)
      known (some n) =
          alive n (k.keep_alive_once n c.etcd).0 (k.keep_alive_once n c.etcd).1
            (q.keeping n c.etcd leases_prefix ∙ bare)

  release_lease-IsBare :
      (id : Text) (c : EtcdCoordinator k.E)
      → IsBare k j q c
      → IsBare k j q (release_lease k j id c).0
  unfolding release_lease IsBare
  release_lease-IsBare id c b = elim (Bool-cases (is_empty id)) [
    | inl bad ↦ rw bad b
    | inr good ↦ rw good (known (get c.etcd_lease_of id))
  ]
    where
      known : (o : Option ℕ) → q.stored (release_known k j c id o).0.etcd leases_prefix ≡ none
      known none = b
      known (some n) = q.revoking n c.etcd leases_prefix b

  current_lease-IsBare :
      (t : Text) (now : ℕ) (c : EtcdCoordinator k.E)
      → IsBare k j q c
      → IsBare k j q (current_lease k j t now c).0
  unfolding current_lease IsBare
  current_lease-IsBare t now c b =
      answered (k.get_key (leases_prefix ++ t) c.etcd).0 (k.get_key (leases_prefix ++ t) c.etcd).1
        (q.reading (leases_prefix ++ t) c.etcd leases_prefix b)
    where
      answered :
          (e : k.E) (r : Reply (List KeyValue))
          → q.stored e leases_prefix ≡ none
          → q.stored (looked_up k j c now (e, r)).0.etcd leases_prefix ≡ none
      answered e (failed message) s = s
      answered e (replied kvs) s = s

  -- A call of the coordinator
  pub data Call (c : EtcdCoordinator k.E) : EtcdCoordinator k.E → Type 0 where
    acquires :
        (req : LeaseRequest) (now later : ℕ) (fresh : Text)
        → Call c (acquire_lease k j req now later fresh c).0
    renews : (id : Text) (ttl : ℤ) (now : ℕ) → Call c (renew_lease k j id ttl now c).0
    releases : (id : Text) → Call c (release_lease k j id c).0
    looks : (tunnel : Text) (now : ℕ) → Call c (current_lease k j tunnel now c).0

  -- What calls lead to from a state in which nothing stands under the bare prefix.
  pub data Called : EtcdCoordinator k.E → Type 0 where
    begins : (c : EtcdCoordinator k.E) → q.stored c.etcd leases_prefix ≡ none → Called c
    calls : {c c' : EtcdCoordinator k.E} → Called c → Call c c' → Called c'

  Call-IsBare : {c c' : EtcdCoordinator k.E} → IsBare k j q c → Call c c' → IsBare k j q c'
  Call-IsBare {c} b (acquires req now later fresh) =
      acquire_lease-IsBare k j q req now later fresh c b
  Call-IsBare {c} b (renews id ttl now) = (renew_lease-refused id ttl now c b).1
  Call-IsBare {c} b (releases id) = release_lease-IsBare id c b
  Call-IsBare {c} b (looks tunnel now) = current_lease-IsBare tunnel now c b

  Called-IsBare : {c : EtcdCoordinator k.E} → Called c → IsBare k j q c
  unfolding IsBare
  Called-IsBare (begins c b) = b
  Called-IsBare (calls r s) = Call-IsBare (Called-IsBare r) s

-- Where etcd does as it documents, RenewLease fails for every lease in every state that calls of
-- AcquireLease, RenewLease, ReleaseLease and CurrentLease lead to from one with nothing under the key
-- `/tunneledge/leases/`.
pub renew_lease-fails :
    (k : Etcd) (j : Codecs) (q : Quiet k) (id : Text) (ttl : ℤ) (now : ℕ) (c : EtcdCoordinator k.E)
    → Called k j q c
    → is_ok (renew_lease k j id ttl now c).1 ≡ false
renew_lease-fails k j q id ttl now c r =
    (renew_lease-refused k j q id ttl now c (Called-IsBare k j q r)).0
