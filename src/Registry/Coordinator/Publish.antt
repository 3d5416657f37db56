-- ===== src/Registry/Coordinator/Publish.antt =====
-- internal/registry/mem_coordinator.go: the events that AcquireLease and ReleaseLease publish from
-- goroutines of their own, and what a gateway makes of them.
use tunneledge.Common.{
  Text, ℕ, ◌≡◌, refl, sym, ap, ◌∙◌, Bool, true, false, if◌then◌else◌, [], ◌∷◌, ◌++◌, map, Option,
  none, some, is_empty, text_eq, text_eq_refl, arith,
}
use tunneledge.Common.Maps.{get, get-remove}
use tunneledge.Errs.{GoError, Result, ok, err}
use tunneledge.Domain.{Lease, LeaseRequest, RegistryEvent}
use tunneledge.Gateway.Distributed.{
  DistributedRouter, lookup_peer, handle_event, run, on_lease_released, remove_tunnel_routes,
}
use tunneledge.Gateway.Distributed.Peers.{leased_route, lookup_peer-lease_acquired}
use tunneledge.Gateway.Router.{hostname_for_tunnel}
use tunneledge.Gateway.Scorer.{Float64}
use tunneledge.Registry.Leases.{LeaseTable, acquire, release, drop_found}
use tunneledge.Registry.Coordinator.{
  MemCoordinator, offer_event, publish, run_spawned, acquired_event, released_event, acquire_lease,
  release_lease, after_acquire, announce,
}

abbrev value_or : Lease → Result Lease → Lease
value_or l (err e) = l
value_or l (ok a) = a

-- A call that answers `l` leaves the event of `l` to a new goroutine.
record Leaves (e : RegistryEvent) (m m' : MemCoordinator) : Type 0 where
  spawned : m'.spawned ≡ m.spawned ++ (e ∷ [])
  subs : m'.event_subs ≡ m.event_subs

after_acquire-Leaves :
    (req : LeaseRequest) (now : ℕ) (m : MemCoordinator) (p : LeaseTable × Result Lease) (l : Lease)
    → (after_acquire req now m p).1 ≡ ok l
    → Leaves (acquired_event l) m (after_acquire req now m p).0
unfolding after_acquire
after_acquire-Leaves req now m (tb, err e) l h = absurd (ground arith)
after_acquire-Leaves req now m (tb, ok a) l h = record {
  spawned = ap (λ r. m.spawned ++ (acquired_event (value_or a r) ∷ [])) h;
  subs = refl;
}

announce-Leaves :
    (event : Lease → RegistryEvent) (m : MemCoordinator) (p : LeaseTable × Result Lease) (k : Lease)
    → (announce event m p).1 ≡ ok k
    → Leaves (event k) m (announce event m p).0
announce-Leaves event m (tb, err e) k h = absurd (ground arith)
announce-Leaves event m (tb, ok a) k h = record {
  spawned = ap (λ r. m.spawned ++ (event (value_or a r) ∷ [])) h;
  subs = refl;
}

announce-leases :
    (event : Lease → RegistryEvent) (m : MemCoordinator) (p : LeaseTable × Result Lease)
    → (announce event m p).0.leases ≡ p.0
announce-leases event m (tb, err e) = refl
announce-leases event m (tb, ok a) = refl

announce-ok :
    (event : Lease → RegistryEvent) (m : MemCoordinator) (p : LeaseTable × Result Lease)
    → (announce event m p).1 ≡ p.1
announce-ok event m (tb, err e) = refl
announce-ok event m (tb, ok a) = refl

-- A released lease is gone.
drop_found-gone :
    (tb : LeaseTable) (id : Text) (o : Option Lease) (k : Lease)
    → (drop_found tb id o).1 ≡ ok k
    → get (drop_found tb id o).0.by_id id ≡ none
unfolding drop_found
drop_found-gone tb id none k h = absurd (ground arith)
drop_found-gone tb id (some l) k h = rw (get-remove, text_eq_refl) refl

unless-gone :
    (tb : LeaseTable) (id : Text) (o : Option Lease) (k : Lease) (e : GoError) (b : Bool)
    → (if b then (tb, err e) else drop_found tb id o).1 ≡ ok k
    → get (if b then (tb, err e) else drop_found tb id o).0.by_id id ≡ none
unless-gone tb id o k e true h = absurd (ground arith)
unless-gone tb id o k e false h = drop_found-gone tb id o k h

release-gone :
    (tb : LeaseTable) (id : Text) (k : Lease)
    → (release tb id).1 ≡ ok k
    → get (release tb id).0.by_id id ≡ none
unfolding release
release-gone tb id k h = unless-gone tb id (get tb.by_id id) k _ (is_empty id) h

release_lease-gone :
    (id : Text) (m : MemCoordinator) (k : Lease)
    → (release_lease id m).1 ≡ ok k
    → get (release_lease id m).0.leases.by_id id ≡ none
unfolding release_lease
release_lease-gone id m k h =
    ap (λ tb. get tb.by_id id) (announce-leases released_event m (release m.leases id))
    ∙ release-gone m.leases id k (sym (announce-ok released_event m (release m.leases id)) ∙ h)

-- The second of two pending goroutines runs first.
run_spawned-second :
    (m : MemCoordinator) (a b : RegistryEvent)
    → m.spawned ≡ a ∷ b ∷ []
    → ((run_spawned 0 (run_spawned 1 m)).event_subs
        ≡ map (offer_event a) (map (offer_event b) m.event_subs))
      × ((run_spawned 0 (run_spawned 1 m)).leases ≡ m.leases)
unfolding run_spawned publish
run_spawned-second m a b h = rw h (refl, refl)

-- A gateway that hears of the release first.
late-acquired :
    (fl : Float64) (d : DistributedRouter fl.F) (k l : Lease)
    → is_empty l.relay_id ≡ false
    → text_eq l.relay_id d.self_relay_id ≡ false
    → lookup_peer
        (run fl d (released_event k ∷ acquired_event l ∷ []))
        (hostname_for_tunnel d.router.domain l.tunnel_id)
      ≡ some (leased_route d l)
unfolding run handle_event on_lease_released remove_tunnel_routes
late-acquired fl d k l named other =
    lookup_peer-lease_acquired fl (handle_event fl d (released_event k)) l
      (hostname_for_tunnel d.router.domain l.tunnel_id) named other
    ∙ rw text_eq_refl refl

-- While no event is pending, a relay acquires a lease and releases it, both with success. The events' two
-- goroutines may then run in the order that offers every subscriber the release first, and then the
-- acquisition; the lease is gone from the coordinator, and yet a gateway that handles the two events,
-- and is not that relay, whose ID is not empty, routes the tunnel's host name to it.
pub release_lease-acquire_lease :
    (req : LeaseRequest) (now : ℕ) (fresh : Text) (m : MemCoordinator) (l k : Lease) (fl : Float64)
    (d : DistributedRouter fl.F)
    → m.spawned ≡ []
    → (acquire_lease req now fresh m).1 ≡ ok l
    → (release_lease l.lease_id (acquire_lease req now fresh m).0).1 ≡ ok k
    → is_empty l.relay_id ≡ false
    → text_eq l.relay_id d.self_relay_id ≡ false
    → ((run_spawned 0
          (run_spawned 1 (release_lease l.lease_id (acquire_lease req now fresh m).0).0)).event_subs
        ≡ map (offer_event (acquired_event l)) (map (offer_event (released_event k)) m.event_subs))
      × (get
            (run_spawned 0 (
              run_spawned 1
                (release_lease l.lease_id (acquire_lease req now fresh m).0).0)).leases.by_id
            l.lease_id
          ≡ none)
      × (lookup_peer
            (run fl d (released_event k ∷ acquired_event l ∷ []))
            (hostname_for_tunnel d.router.domain l.tunnel_id)
          ≡ some (leased_route d l))
unfolding acquire_lease release_lease
release_lease-acquire_lease req now fresh m l k fl d none_pending acquired released named other =
    let first = after_acquire-Leaves req now m (acquire m.leases req now fresh) l acquired in
    let m1 = (acquire_lease req now fresh m).0 in
    let second = announce-Leaves released_event m1 (release m1.leases l.lease_id) k released in
    let both =
      run_spawned-second (release_lease l.lease_id m1).0 (acquired_event l) (released_event k) (
        second.spawned
        ∙ ap (λ es. es ++ (released_event k ∷ []))
            (first.spawned ∙ ap (λ es. es ++ (acquired_event l ∷ [])) none_pending)) in
    (
      both.0
          ∙ ap
              (λ subs.
                map (offer_event (acquired_event l)) (map (offer_event (released_event k)) subs))
              (second.subs ∙ first.subs),
      ap (λ tb. get tb.by_id l.lease_id) both.1 ∙ release_lease-gone l.lease_id m1 k released,
      late-acquired fl d k l named other,
    )
