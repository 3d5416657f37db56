-- ===== src/Registry/Server/Started.antt =====
-- internal/registry/server.go and internal/gateway/distributed_router.go: a gateway that starts to watch
-- the registry with what is already there.
use tunneledge.Common.{
  Text, ℕ, ◌≡◌, refl, sym, ap, ◌∙◌, Bool, true, false, List, [], ◌∷◌, ◌++◌, Option, none, some,
  is_empty, text_eq, text_eq_iff, arith, All, Bool-cases, inl, inr,
}
use tunneledge.Common.Maps.{Dict, get, get-remove}
use tunneledge.Domain.{Session, Lease, RelayInfo, RelayHealth, RegistryEvent, lease_expired}
use tunneledge.Gateway.Distributed.{
  DistributedRouter, lookup_peer, handle_event, run, on_lease_acquired,
}
use tunneledge.Gateway.Distributed.Routes.{IsMirror, has_route, run-IsMirror, lookup_peer-IsMirror}
use tunneledge.Gateway.Distributed.Started.{
  IsAdding, Finds, run-Finds, run-append, on_lease_acquired-adds,
}
use tunneledge.Gateway.Router.{hostname_for_tunnel}
use tunneledge.Gateway.Scorer.{Float64}
use tunneledge.Registry.Leases.{LeaseTable, current_locked, check_lease}
use tunneledge.Registry.Coordinator.{MemCoordinator, acquired_event, current_lease}
use tunneledge.Registry.Coordinator.Snapshot.{snapshot, lease_events, relay_events, health_events}
use tunneledge.Registry.Server.{Server, snapshot_sessions, send_snapshot}
use tunneledge.Registry.Wire.Carried.{IsShaped, AllShaped, received, run-received}

-- A lease in force stays where it is when another is looked up.
check_lease-keeps :
    (tb : LeaseTable) (tunnel : Text) (now : ℕ) (i id : Text) (l : Lease) (o : Option Lease)
    → get tb.by_id i ≡ some l
    → lease_expired l now ≡ false
    → get tb.by_id id ≡ o
    → get (check_lease tb tunnel now id o).0.by_id i ≡ some l
unfolding check_lease
check_lease-keeps tb tunnel now i id l none at live h = at
check_lease-keeps tb tunnel now i id l (some k) at live h =
    ground (arith, at, live, h, get-remove tb.by_id id i, text_eq_iff id i)

current_locked-keeps :
    (tb : LeaseTable) (t : Text) (now : ℕ) (i : Text) (l : Lease) (o : Option Text)
    → get tb.by_id i ≡ some l
    → lease_expired l now ≡ false
    → get tb.by_tunnel t ≡ o
    → get (current_locked tb t now).0.by_id i ≡ some l
unfolding current_locked get
current_locked-keeps tb t now i l none at live h = rw (current_locked, h) at
current_locked-keeps tb t now i l (some id) at live h =
    rw (current_locked, h) (check_lease-keeps tb t now i id l (get tb.by_id id) at live refl)

-- The sessions' loop keeps it too.
snapshot_sessions-keeps :
    (now : ℕ) (ss : Dict Session) (srv : Server) (i : Text) (l : Lease)
    → get srv.coord.leases.by_id i ≡ some l
    → lease_expired l now ≡ false
    → get (snapshot_sessions [] [] now srv ss).0.coord.leases.by_id i ≡ some l
unfolding snapshot_sessions current_lease
snapshot_sessions-keeps now [] srv i l at live = at
snapshot_sessions-keeps now ((id, s) ∷ ss) srv i l at live =
    snapshot_sessions-keeps now ss _ i l
      (current_locked-keeps srv.coord.leases s.tunnel_id now i l
        (get srv.coord.leases.by_tunnel s.tunnel_id) at live refl)
      live

-- Every event of a snapshot adds, and is shaped as the registry publishes it.
abbrev IsFirst : RegistryEvent → Type 0
IsFirst e = IsAdding e.type × IsShaped e.type e

All-append : (xs ys : List RegistryEvent) → All IsFirst xs → All IsFirst ys → All IsFirst (xs ++ ys)
All-append [] ys a b = b
All-append (x ∷ xs) ys (p, a) b = (p, All-append xs ys a b)

snapshot_sessions-IsFirst :
    (now : ℕ) (ss : Dict Session) (srv : Server)
    → All IsFirst (snapshot_sessions [] [] now srv ss).1
unfolding snapshot_sessions
snapshot_sessions-IsFirst now [] srv = tt
snapshot_sessions-IsFirst now ((id, s) ∷ ss) srv = ((tt, refl), snapshot_sessions-IsFirst now ss _)

lease_events-IsFirst : (now : ℕ) (m : Dict Lease) → All IsFirst (lease_events [] [] now m)
unfolding lease_events
lease_events-IsFirst now [] = tt
lease_events-IsFirst now ((id, l) ∷ m) = elim (Bool-cases (lease_expired l now)) [
  | inl e ↦ rw e (lease_events-IsFirst now m)
  | inr e ↦ rw e ((tt, tt), lease_events-IsFirst now m)
]

relay_events-IsFirst : (m : Dict RelayInfo) → All IsFirst (relay_events [] m)
unfolding relay_events
relay_events-IsFirst [] = tt
relay_events-IsFirst ((id, r) ∷ m) = ((tt, tt), relay_events-IsFirst m)

health_events-IsFirst :
    (relays : Dict RelayInfo) (m : Dict RelayHealth) → All IsFirst (health_events [] relays m)
unfolding health_events
health_events-IsFirst relays [] = tt
health_events-IsFirst relays ((id, h) ∷ m) = ((tt, tt), health_events-IsFirst relays m)

snapshot-IsFirst : (now : ℕ) (m : MemCoordinator) → All IsFirst (snapshot [] [] now m)
unfolding snapshot
snapshot-IsFirst now m =
    All-append _ _ (lease_events-IsFirst now m.leases.by_id) (
      All-append _ _ (relay_events-IsFirst m.relays)
        (health_events-IsFirst m.relays m.relay_health))

adding : (es : List RegistryEvent) → All IsFirst es → All (λ e. IsAdding e.type) es
adding [] a = tt
adding (e ∷ es) (p, a) = (p.0, adding es a)

shaped : (es : List RegistryEvent) → All IsFirst es → AllShaped es
shaped [] a = tt
shaped (e ∷ es) (p, a) = (p.1, shaped es a)

module _ (fl : Float64) (self domain : Text) (now : ℕ) (i : Text) (l : Lease)
    (live : lease_expired l now ≡ false) (own : is_empty l.relay_id ≡ false)
    (other : text_eq l.relay_id self ≡ false) where
  abbrev Reached : Bool → DistributedRouter fl.F → Type 0
  Reached want d = Finds want self domain (hostname_for_tunnel domain l.tunnel_id) d

  keep :
      (want : Bool) (d : DistributedRouter fl.F) (es : List RegistryEvent)
      → All IsFirst es
      → Reached want d
      → Reached want (run fl d es)
  keep want d es a f = run-Finds fl d es (adding es a) f

  -- The event of the lease itself, and those behind it
  lease_event-Finds :
      (m : Dict Lease) (v : Lease) (d : DistributedRouter fl.F)
      → v ≡ l
      → Reached false d
      → Reached true (run fl d (acquired_event v ∷ lease_events [] [] now m))
  unfolding run handle_event
  lease_event-Finds m v d e f = rw e (
      keep true (on_lease_acquired d (some l)) (lease_events [] [] now m)
        (lease_events-IsFirst now m) (on_lease_acquired-adds fl d l own other f))

  -- The leases' events put a route under the host name of each live lease of a peer.
  lease_events-Finds :
      (m : Dict Lease) (d : DistributedRouter fl.F)
      → get m i ≡ some l
      → Reached false d
      → Reached true (run fl d (lease_events [] [] now m))
  unfolding lease_events get run
  lease_events-Finds [] d at f = ground arith
  lease_events-Finds ((k, v) ∷ m) d at f = elim (Bool-cases (lease_expired v now)) [
    | inl gone ↦ rw gone (lease_events-Finds m d (ground (arith, at, gone, live)) f)
    | inr here ↦ rw here (elim (Bool-cases (text_eq k i)) [
      | inl same ↦ lease_event-Finds m v d (ground (arith, at, same)) f
      | inr ne ↦
          lease_events-Finds m (handle_event fl d (acquired_event v)) (ground (arith, at, ne))
            (keep false d (acquired_event v ∷ []) ((tt, tt), tt) f)
    ])
  ]

  snapshot-Finds :
      (m : MemCoordinator) (d : DistributedRouter fl.F)
      → get m.leases.by_id i ≡ some l
      → Reached false d
      → Reached true (run fl d (snapshot [] [] now m))
  unfolding snapshot
  snapshot-Finds m d at f =
      rw
        (run-append fl d (lease_events [] [] now m.leases.by_id)
          (relay_events [] m.relays ++ health_events [] m.relays m.relay_health))
        (keep true (run fl d (lease_events [] [] now m.leases.by_id)) _
          (All-append _ _ (relay_events-IsFirst m.relays)
            (health_events-IsFirst m.relays m.relay_health))
          (lease_events-Finds m.leases.by_id d at f))

  send_snapshot-Finds :
      (srv : Server) (d : DistributedRouter fl.F)
      → get srv.coord.leases.by_id i ≡ some l
      → Reached false d
      → Reached true (run fl d (send_snapshot [] [] now srv).1)
  unfolding send_snapshot
  send_snapshot-Finds srv d at f =
      rw
        (run-append fl d (snapshot_sessions [] [] now srv srv.store).1
          (snapshot [] [] now (snapshot_sessions [] [] now srv srv.store).0.coord))
        (snapshot-Finds (snapshot_sessions [] [] now srv srv.store).0.coord
          (run fl d (snapshot_sessions [] [] now srv srv.store).1)
          (snapshot_sessions-keeps now srv.store srv i l at live)
          (keep false d (snapshot_sessions [] [] now srv srv.store).1
            (snapshot_sessions-IsFirst now srv.store srv) f))

send_snapshot-IsFirst : (now : ℕ) (srv : Server) → All IsFirst (send_snapshot [] [] now srv).1
unfolding send_snapshot
send_snapshot-IsFirst now srv =
    All-append _ _ (snapshot_sessions-IsFirst now srv.store srv)
      (snapshot-IsFirst now (snapshot_sessions [] [] now srv srv.store).0.coord)

-- A gateway that begins to watch the registry without filters finds, once it has handled the snapshot
-- that the service sends first, a route under the host name of every tunnel whose lease is in force
-- and held by a relay whose ID is neither empty nor its own, if each route that it held before was a
-- peer's, labelled `default` and under the host name of its tunnel.
pub lookup_peer-send_snapshot :
    (fl : Float64) (now : ℕ) (srv : Server) (d : DistributedRouter fl.F) (i : Text) (l : Lease)
    → IsMirror d
    → get srv.coord.leases.by_id i ≡ some l
    → lease_expired l now ≡ false
    → is_empty l.relay_id ≡ false
    → text_eq l.relay_id d.self_relay_id ≡ false
    → has_route (
        lookup_peer
          (run fl d (received (send_snapshot [] [] now srv).1))
          (hostname_for_tunnel d.router.domain l.tunnel_id))
      ≡ true
lookup_peer-send_snapshot fl now srv d i l m at live own other =
    let es = (send_snapshot [] [] now srv).1 in
    lookup_peer-IsMirror (run fl d (received es)) (hostname_for_tunnel d.router.domain l.tunnel_id)
      (run-IsMirror fl d (received es) m)
    ∙ ap (λ routes. has_route (get routes (hostname_for_tunnel d.router.domain l.tunnel_id)))
        (sym (run-received fl d es (shaped es (send_snapshot-IsFirst now srv))).0)
    ∙ (send_snapshot-Finds fl d.self_relay_id d.router.domain now i l live own other srv d at
        (record { self_is = refl; domain_is = refl; found = refl })).found
