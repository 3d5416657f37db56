-- ===== src/Tests/Servers.antt =====
-- The theorems on the registry's service and on its coordinator in etcd.
use tunneledge.Common.{
  arith, pos, Text, ◌≡◌, ◌≢◌, text_eq_refl, refl, some, codes, List, [], ◌∷◌, ◌++◌, text_eq,
  text_eq_iff, true, false, Option, none, length, take, drop, take-length_append,
  drop-length_append,
}
use tunneledge.Common.Maps.{Dict, get, put, remove, get-put}
use tunneledge.Domain.{LeaseRequest}
use tunneledge.Registry.Server.{is_ok}
use tunneledge.Registry.Etcd.{
  Reply, replied, failed, KeyValue, TxnResponse, Etcd, LeaseMeta, Json, Codecs, EtcdCoordinator,
  lease_of, acquire_lease,
}
use tunneledge.Registry.Etcd.Renewal.{renew_lease, current_lease}
use tunneledge.Registry.Etcd.Stored.{pairs, Commits, Quiet, Encodes}
use tunneledge.Registry.Etcd.Stored.Refused.{acquire_lease-refused}
use tunneledge.Registry.Etcd.Stored.Found.{acquire_lease-current_lease}
use tunneledge.Registry.Etcd.Stored.Renewed.{begins, calls, acquires, renew_lease-fails}

-- A store of one client that answers every call.
abbrev listed : Text → Option Text → List KeyValue
listed key none = []
listed key (some v) = record { key = key; value = v } ∷ []

abbrev created : Text → Text → Dict Text → Option Text → Dict Text × Reply TxnResponse
created key value e none = (put e key value, replied (record { succeeded = true; kvs = [] }))
created key value e (some v) =
    (e, replied (record { succeeded = false; kvs = listed key (some v) }))

abbrev memory : Etcd
memory = record {
  E = Dict Text;
  grant = λ n e. (e, replied 7);
  revoke = λ id e. (e, replied tt);
  keep_alive_once = λ id e. (e, replied tt);
  create = λ key value id e. created key value e (get e key);
  get_key = λ key e. (e, replied (listed key (get e key)));
  get_prefix = λ key e. (e, replied []);
  put_key = λ key value id e. (put e key value, replied tt);
}

get-put_same : (e : Dict Text) (key value : Text) → get (put e key value) key ≡ some value
get-put_same e key value = ground (arith, get-put e key key value, text_eq_refl key)

get-put_other :
    (e : Dict Text) (key value other : Text)
    → key ≢ other
    → get e other ≡ none
    → get (put e key value) other ≡ none
get-put_other e key value other ne h =
    ground (arith, get-put e key other value, text_eq_iff key other, ne, h)

created-Commits :
    (key value : Text) (e : Dict Text) (o : Option Text)
    → get e key ≡ o
    → Commits key value o (get (created key value e o).0 key) (created key value e o).1
created-Commits key value e none h = (refl, get-put_same e key value)
created-Commits key value e (some v) h = (refl, h, refl)

created-other :
    (key value : Text) (e : Dict Text) (other : Text) (o : Option Text)
    → key ≢ other
    → get e other ≡ none
    → get (created key value e o).0 other ≡ none
created-other key value e other none ne h = get-put_other e key value other ne h
created-other key value e other (some v) ne h = h

listed-pairs : (key : Text) (o : Option Text) → listed key o ≡ pairs key o
listed-pairs key none = refl
listed-pairs key (some v) = refl

memory-Quiet : Quiet memory
memory-Quiet = record {
  stored = λ e key. get e key;
  granting = λ n e key. refl;
  keeping = λ id e key. refl;
  getting = λ key e. listed-pairs key (get e key);
  creating = λ key value id e. created-Commits key value e (get e key) refl;
  putting = λ key value id e. get-put_same e key value;
  revoking = λ id e key h. h;
  reading = λ read e key h. h;
  creating_other = λ key value id e other ne h. created-other key value e other (get e key) ne h;
  putting_other = λ key value id e other ne h. get-put_other e key value other ne h;
}

abbrev coded : LeaseMeta → Text
coded m =
    m.expires_at
    ∷ m.version
    ∷ m.etcd_lease
    ∷ length m.lease_id
    ∷ length m.tunnel_id
    ∷ (m.lease_id ++ (m.tunnel_id ++ m.relay_id))

abbrev decoded : Text → Option LeaseMeta
decoded (x ∷ v ∷ e ∷ a ∷ b ∷ rest) = some (record {
  lease_id = take a rest;
  tunnel_id = take b (drop a rest);
  relay_id = drop b (drop a rest);
  expires_at = x;
  version = v;
  etcd_lease = e;
})
decoded _ = none

abbrev json : Json LeaseMeta
json = record { marshal = λ m. replied (coded m); unmarshal = decoded }

json-Encodes : Encodes json
json-Encodes = record { coded = coded; marshals = λ m. refl; unmarshals = λ m. decoded-coded m }
  where
    decoded-coded : (m : LeaseMeta) → decoded (coded m) ≡ some m
    decoded-coded m = rw (
      take-length_append m.lease_id (m.tunnel_id ++ m.relay_id),
      drop-length_append m.lease_id (m.tunnel_id ++ m.relay_id),
      take-length_append m.tunnel_id m.relay_id,
      drop-length_append m.tunnel_id m.relay_id,
    )

abbrev codecs : Codecs
codecs = record {
  lease = json;
  relay = record { marshal = λ m. failed []; unmarshal = λ v. none };
  health = record { marshal = λ m. failed []; unmarshal = λ v. none };
}

abbrev empty : EtcdCoordinator (Dict Text)
empty = record { etcd = []; etcd_lease_of = []; event_subs = []; health_subs = []; next_id = 0 }

abbrev request : LeaseRequest
request = record { tunnel_id = codes "t-web"; relay_id = codes "gw-1"; ttl = pos 30 }

abbrev rival : LeaseRequest
rival = record { tunnel_id = codes "t-web"; relay_id = codes "gw-2"; ttl = pos 30 }

abbrev stored_meta : LeaseMeta
stored_meta = record {
  lease_id = codes "lease-1";
  tunnel_id = codes "t-web";
  relay_id = codes "gw-1";
  expires_at = 130;
  version = 1;
  etcd_lease = 7;
}

abbrev first : EtcdCoordinator (Dict Text)
first = (acquire_lease memory codecs request 100 101 (codes "lease-1") empty).0

acquire_lease-refused_example :
    is_ok (acquire_lease memory codecs rival 140 141 (codes "lease-2") first).1 ≡ false
unfolding acquire_lease get put remove text_eq memory-Quiet
acquire_lease-refused_example =
    acquire_lease-refused memory codecs memory-Quiet rival 140 141 (codes "lease-2")
      (coded stored_meta) stored_meta first refl refl refl

acquire_lease-current_lease_example :
    (current_lease memory codecs (codes "t-web") 120 first).1 ≡ some (lease_of stored_meta)
unfolding acquire_lease get put remove text_eq
acquire_lease-current_lease_example =
    acquire_lease-current_lease memory codecs memory-Quiet json-Encodes request 100 101 120
      (codes "lease-1") (lease_of stored_meta)
      (listed (codes "/tunneledge/leases/t-web") (some (coded stored_meta))) empty refl refl refl

renew_lease-fails_example :
    is_ok (renew_lease memory codecs (codes "lease-1") (pos 30) 110 first).1 ≡ false
unfolding get memory-Quiet
renew_lease-fails_example =
    renew_lease-fails memory codecs memory-Quiet (codes "lease-1") (pos 30) 110 first
      (calls (begins empty refl) (acquires request 100 101 (codes "lease-1")))
