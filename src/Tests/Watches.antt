-- ===== src/Tests/Watches.antt =====
-- The theorems on a gateway that watches the registry.
use tunneledge.Common.{
  arith, some, none, map, pos, ℕ, ◌≡◌, refl, codes, List, [], ◌∷◌, text_eq, true,
}
use tunneledge.Common.Maps.{get, put, remove}
use tunneledge.Domain.{LeaseRequest, lease_expired, Lease, RegistryEvent}
use tunneledge.Gateway.Router.{new_router, hostname_for_tunnel}
use tunneledge.Gateway.Distributed.{DistributedRouter, new_distributed, lookup_peer, run}
use tunneledge.Gateway.Distributed.Routes.{has_route, new_distributed-IsMirror}
use tunneledge.Registry.Leases.{acquire, current_locked, grant}
use tunneledge.Registry.Leases.{release, drop_found}
use tunneledge.Registry.Coordinator.Publish.{release_lease-acquire_lease}
use tunneledge.Gateway.Distributed.Peers.{leased_route}
use tunneledge.Registry.Server.Seconds.{serve_renew-wraps}
use tunneledge.Registry.Server.{serve_renew, is_ok}
use tunneledge.Registry.Coordinator.{
  MemCoordinator, subscribe, release_lease, run_spawned, offer_event, released_event,
  new_coordinator, acquire_lease, acquired_event, after_acquire, touch_relay,
}
use tunneledge.Registry.Server.{Server, send_snapshot, tunnel_event, requested, serve_acquire}
use tunneledge.Registry.Server.Started.{lookup_peer-send_snapshot}
use tunneledge.Registry.Wire.Carried.{SameRoutes, received, run-received}
use tunneledge.Tests.Routes.{whole}

abbrev mirror : DistributedRouter ℕ
mirror = new_distributed whole (codes "gw-1") (codes "edge.dev") (new_router (codes "edge.dev"))

abbrev lease : Lease
lease = record {
  lease_id = codes "lease-1";
  tunnel_id = codes "t-web";
  relay_id = codes "gw-2";
  expires_at = 5000000100;
  version = 1;
}

abbrev serving : Server
serving =
    (serve_acquire (codes "t-web") (codes "gw-2") (pos 5) 100 (codes "lease-1")
      (record { store = []; coord = new_coordinator })).0

abbrev events : List RegistryEvent
events =
    tunnel_event (requested (codes "t-web") (codes "web") (codes "web.edge.dev") [])
    ∷ acquired_event lease
    ∷ []

run-received_example : SameRoutes (run whole mirror events) (run whole mirror (received events))
run-received_example = run-received whole mirror events (refl, (tt, tt))

lookup_peer-send_snapshot_example :
    has_route (
      lookup_peer
        (run whole mirror (received (send_snapshot [] [] 200 serving).1))
        (codes "web.edge.dev"))
    ≡ true
unfolding serve_acquire acquire_lease after_acquire touch_relay acquire current_locked grant get put
    remove text_eq hostname_for_tunnel
lookup_peer-send_snapshot_example =
    lookup_peer-send_snapshot whole 200 serving mirror (codes "lease-1") lease
      (new_distributed-IsMirror whole (codes "gw-1") (codes "edge.dev")
        (new_router (codes "edge.dev")))
      refl refl refl refl

abbrev listening : MemCoordinator
listening = (subscribe new_coordinator).0

abbrev request : LeaseRequest
request = record { tunnel_id = codes "t-web"; relay_id = codes "gw-2"; ttl = pos 5000000000 }

abbrev released : MemCoordinator
released =
    (release_lease (codes "lease-1") (acquire_lease request 100 (codes "lease-1") listening).0).0

release_lease-acquire_lease_example :
    ((run_spawned 0 (run_spawned 1 released)).event_subs
      ≡ map
          (offer_event (acquired_event lease))
          (map (offer_event (released_event lease)) listening.event_subs))
    × (get (run_spawned 0 (run_spawned 1 released)).leases.by_id (codes "lease-1") ≡ none)
    × (lookup_peer
          (run whole mirror (released_event lease ∷ acquired_event lease ∷ []))
          (hostname_for_tunnel (codes "edge.dev") (codes "t-web"))
        ≡ some (leased_route mirror lease))
unfolding acquire_lease after_acquire touch_relay acquire current_locked grant release_lease release
    drop_found subscribe get put remove text_eq
release_lease-acquire_lease_example =
    release_lease-acquire_lease request 100 (codes "lease-1") listening lease lease whole mirror
      refl refl refl refl refl

serve_renew-wraps_example :
    (renewed : Lease) × (get
        (serve_renew (codes "lease-1") (pos 10000000000) 200 serving).0.coord.leases.by_id
        (codes "lease-1")
      ≡ some renewed)
    × (is_ok (serve_renew (codes "lease-1") (pos 10000000000) 200 serving).1 ≡ true)
    × (lease_expired renewed 200 ≡ true)
unfolding serve_acquire acquire_lease after_acquire touch_relay acquire current_locked grant get put
    remove text_eq
serve_renew-wraps_example =
    serve_renew-wraps (codes "lease-1") lease 200 10000000000 serving refl refl refl (omega arith)
      (omega arith) (omega arith)
