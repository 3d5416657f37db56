-- ===== src/Registry/Etcd/Stored.antt =====
-- internal/registry/etcd_coordinator.go: what the coordinator's keys hold, where etcd and encoding/json
-- do as they document.
pub mod Refused
pub mod Bare
pub mod Renewed
pub mod Found
use tunneledge.Common.{
  Text, ℕ, ◌≡◌, ◌≢◌, refl, sym, ap, subst, ◌∙◌, Bool, true, false, ◌||◌, List, [], ◌∷◌, ◌++◌,
  Option, none, some, is_empty, text_eq, arith, Bool-cases, inl, inr, if◌then◌else◌,
}
use tunneledge.Common.Maps.{get}
use tunneledge.Domain.{Lease, LeaseRequest, lease_expired}
use tunneledge.Errs.{GoError, Result, ok, err}
use tunneledge.Registry.Server.{is_ok}
use tunneledge.Registry.Etcd.{
  Reply, replied, failed, KeyValue, TxnResponse, Etcd, LeaseMeta, Json, Codecs, EtcdCoordinator,
  leases_prefix, lease_of, Answer, at_etcd, acquire_lease, committed, marshalled, granted,
  owned_already, granted_again, put_again, new_meta, whole_seconds,
}
use tunneledge.Registry.Etcd.Renewal.{
  renew_lease, current_lease, kept_alive, read_back, renew_known, renew_among,
}

abbrev pub pairs : Text → Option Text → List KeyValue
pairs key none = []
pairs key (some value) = record { key = key; value = value } ∷ []

-- What a Get of the key answers, if it answers
abbrev pub Answers : Text → Option Text → Reply (List KeyValue) → Type 0
Answers key o (failed e) = Unit
Answers key o (replied kvs) = kvs ≡ pairs key o

-- What the transaction answers, and what the key holds after it
abbrev pub Commits : Text → Text → Option Text → Option Text → Reply TxnResponse → Type 0
Commits key value before now (failed e) = Unit
Commits key value none now (replied r) = (r.succeeded ≡ true) × (now ≡ some value)
Commits key value (some v) now (replied r) =
    (r.succeeded ≡ false) × (now ≡ some v) × (r.kvs ≡ pairs key (some v))

abbrev pub Puts : Text → Option Text → Reply (Unit {0}) → Type 0
Puts value now (failed e) = Unit
Puts value now (replied u) = now ≡ some value

-- etcd as it is documented, while no other client writes and no lease ends.
pub record Quiet (k : Etcd) : Type 0 where
  pub stored : k.E → Text → Option Text
  pub granting : (n : ℕ) (e : k.E) (key : Text) → stored (k.grant n e).0 key ≡ stored e key
  pub keeping :
      (id : ℕ) (e : k.E) (key : Text) → stored (k.keep_alive_once id e).0 key ≡ stored e key
  pub getting : (key : Text) (e : k.E) → Answers key (stored e key) (k.get_key key e).1
  pub creating :
      (key value : Text) (id : ℕ) (e : k.E)
      → Commits key value
          (stored e key)
          (stored (k.create key value id e).0 key)
          (k.create key value id e).1
  pub putting :
      (key value : Text) (id : ℕ) (e : k.E)
      → Puts value
          (stored (k.put_key key value (some id) e).0 key)
          (k.put_key key value (some id) e).1
  -- What no call puts stays away.
  pub revoking :
      (id : ℕ) (e : k.E) (key : Text) → stored e key ≡ none → stored (k.revoke id e).0 key ≡ none
  pub reading :
      (read : Text) (e : k.E) (key : Text)
      → stored e key ≡ none
      → stored (k.get_key read e).0 key ≡ none
  pub creating_other :
      (key value : Text) (id : ℕ) (e : k.E) (other : Text)
      → key ≢ other
      → stored e other ≡ none
      → stored (k.create key value id e).0 other ≡ none
  pub putting_other :
      (key value : Text) (id : ℕ) (e : k.E) (other : Text)
      → key ≢ other
      → stored e other ≡ none
      → stored (k.put_key key value (some id) e).0 other ≡ none

-- json.Marshal of a lease does not fail, and json.Unmarshal reads it back, as they do where the strings
-- are UTF-8.
pub record Encodes {A : Type 0} (j : Json A) : Type 0 where
  pub coded : A → Text
  pub marshals : (a : A) → j.marshal a ≡ replied (coded a)
  pub unmarshals : (a : A) → j.unmarshal (coded a) ≡ some a
