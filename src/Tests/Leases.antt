-- ===== src/Tests/Leases.antt =====
-- The registry's theorems at a coordinator with one lease.
use tunneledge.Common.{
  pos, Text, ◌≡◌, ◌≢◌, refl, some, none, List, codes, [], ◌∷◌, text_eq, text_eq_iff, true, false,
}
use tunneledge.Common.Maps.{get, put, remove}
use tunneledge.Domain.{Lease, LeaseRequest, RelayHealth}
use tunneledge.Errs.{err, rpc, rpc_already_exists}
use tunneledge.Registry.Leases.{LeaseTable, no_leases, acquire, renew, current_locked, grant}
use tunneledge.Registry.Leases.Steps.{
  Reach, acquires, renews, start, next, Reach-one_lease, Reach-IsConsistent,
}
use tunneledge.Registry.Leases.Ownership.{Owns, acquire_refused}
use tunneledge.Registry.Leases.OwnedSteps.{Step-Owns}
use tunneledge.Registry.Leases.Owners.{owners}
use tunneledge.Registry.Leases.Refinement.{act, Step-refines}
use tunneledge.Registry.Coordinator.{new_coordinator, get_relay_health}
use tunneledge.Registry.Coordinator.Health.{
  Report, report_all, address_of, value_or, or_else, last_address, last_health, report_all_lem,
}

abbrev tunnel : Text
tunnel = codes "t-web"

abbrev request : LeaseRequest
request = record { tunnel_id = tunnel; relay_id = codes "gw-1"; ttl = pos 30 }

abbrev rival : LeaseRequest
rival = record { tunnel_id = tunnel; relay_id = codes "gw-2"; ttl = pos 30 }

abbrev lease_name : Text
lease_name = codes "lease-1"

abbrev lease : Lease
lease = record {
  lease_id = lease_name;
  tunnel_id = tunnel;
  relay_id = codes "gw-1";
  expires_at = 130;
  version = 1;
}

abbrev leased : LeaseTable
leased = (acquire no_leases request 100 lease_name).0

leased-Reach : Reach leased
unfolding get
leased-Reach = next 100 start (acquires request lease_name refl)

leased-at : get leased.by_id lease_name ≡ some lease
unfolding acquire current_locked grant get put remove text_eq
leased-at = refl

leased-Owns : Owns leased tunnel lease_name (codes "gw-1") 110
leased-Owns = record {
  lease = lease;
  at = leased-at;
  tunnel = refl;
  relay_is = refl;
  unexpired = refl;
}

Reach-one_lease_example : lease_name ≡ lease_name
Reach-one_lease_example =
    Reach-one_lease lease_name lease_name lease lease leased-Reach leased-at leased-at refl

Step-Owns_example :
    Owns (renew leased (codes "lease-2") (pos 60) 110).0 tunnel lease_name (codes "gw-1") 110
Step-Owns_example =
    Step-Owns tunnel lease_name (codes "gw-1") (renews (codes "lease-2") (pos 60)) leased-Reach
      leased-Owns (λ h. h.1)

rival-ne : codes "gw-2" ≢ codes "gw-1"
unfolding text_eq
rival-ne h = let differ : false ≡ true = (text_eq_iff (codes "gw-2") (codes "gw-1")).1 h in cc

acquire_refused_example : acquire leased rival 110 (codes "lease-2") ≡ (
  leased,
  err (rpc rpc_already_exists "tunnel %s already leased by relay %s" (tunnel ∷ codes "gw-1" ∷ [])),
)
acquire_refused_example =
    acquire_refused (Reach-IsConsistent leased-Reach) leased-Owns rival (codes "lease-2") refl refl
      rival-ne

abbrev health : RelayHealth
health = record {
  advertise_addr = codes "gw-1:443";
  rtt_millis = 20;
  heartbeat_latency_millis = 5;
  active_tunnels = 3;
  active_streams = 7;
  bytes_per_second = 1000;
  packet_loss_pct = 0;
  cpu_utilization_pct = 40;
  memory_utilization_pct = 50;
  recorded_at = 100;
  region = codes "eu";
}

abbrev reports : List Report
reports =
    record {
      relay_id = codes "gw-1";
      advertise_addr = codes "gw-1:443";
      health = health;
      now = 100;
    }
    ∷ (record { relay_id = codes "gw-1"; advertise_addr = []; health = health; now = 110 } ∷ [])

report_all_lem_example :
    (address_of (get (report_all reports new_coordinator).relays (codes "gw-1"))
      ≡ value_or (last_address (codes "gw-1") reports) [])
    × (get_relay_health (codes "gw-1") (report_all reports new_coordinator)
        ≡ or_else (last_health (codes "gw-1") reports) none)
unfolding get
report_all_lem_example = report_all_lem (codes "gw-1") refl reports new_coordinator

Step-refines_example :
    owners (renew leased lease_name (pos 60) 110).0 110
    ≡ act {now = 110} {tb = leased} (renews lease_name (pos 60)) (owners leased 110)
Step-refines_example = Step-refines (renews lease_name (pos 60)) leased-Reach
