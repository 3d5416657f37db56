-- ===== src/Gateway/Distributed/Routes.antt =====
-- What the mirror holds and finds after the registry's events.
use tunneledge.Common.{
  Text, ◌≡◌, refl, Bool, true, false, not, List, [], ◌∷◌, Option, none, some, codes, is_empty,
  text_eq, text_eq_iff, if◌then◌else◌, Bool-cases, subst, sym, inl, inr,
}
use tunneledge.Common.Maps.{get, kept, get-put, get-retain}
use tunneledge.Domain.{
  Session, Lease, RelayInfo, RelayHealth, RegistryEvent, EventType, unknown_event, tunnel_upserted,
  tunnel_deleted, lease_acquired, lease_released, relay_upserted, relay_health_updated,
}
use tunneledge.Gateway.Router.{TunnelRouter, hostname_for_tunnel}
use tunneledge.Gateway.Scorer.{Float64}
use tunneledge.Gateway.Distributed.{
  RemoteRoute, DistributedRouter, peer_route, lookup_peer, owner_of, upsert_tunnel_routes,
  remove_tunnel_routes, note_relay, upsert_of_peer, on_tunnel_upserted, on_lease_acquired,
  on_lease_released, on_tunnel_deleted, on_relay_upserted, on_health, dispatch, new_distributed,
  handle_event, run,
}

-- A route that the mirror may hold under a host name.
record IsPeerRoute (self domain host : Text) (r : RemoteRoute) : Type 0 where
  labelled : r.label ≡ codes "default"
  hosted : host ≡ hostname_for_tunnel domain r.tunnel_id
  owned : is_empty r.owner_relay_id ≡ false
  remote : text_eq r.owner_relay_id self ≡ false

abbrev Allowed : Text → Text → Text → Option RemoteRoute → Type 0
Allowed self domain host none = Unit
Allowed self domain host (some r) = IsPeerRoute self domain host r

-- What the mirror finds under each host name.
pub IsMirror : {F : Type 0} → DistributedRouter F → Type 0
IsMirror d = (host : Text) → Allowed d.self_relay_id d.router.domain host (get d.routes host)

Allowed-kept :
    (self domain host : Text) (keep : Text → RemoteRoute → Bool) (o : Option RemoteRoute)
    → Allowed self domain host o
    → Allowed self domain host (kept keep host o)
Allowed-kept self domain host keep none a = a
Allowed-kept self domain host keep (some r) a = elim (Bool-cases (keep host r)) [
  | inl e ↦ rw (e) a
  | inr e ↦ rw (e) tt
]

Allowed-put :
    (self domain host new : Text) (r : RemoteRoute) (o : Option RemoteRoute)
    → IsPeerRoute self domain new r
    → Allowed self domain host o
    → Allowed self domain host (if text_eq new host then some r else o)
Allowed-put self domain host new r o p a = elim (Bool-cases (text_eq new host)) [
  | inl e ↦ rw (e) (subst (λ h. IsPeerRoute self domain h r) ((text_eq_iff new host).0 e) p)
  | inr e ↦ rw (e) a
]

module _ {F : Type 0} (d : DistributedRouter F) (m : IsMirror d) where
  remove_tunnel_routes-IsMirror : (t : Text) → IsMirror (remove_tunnel_routes d t)
  unfolding remove_tunnel_routes IsMirror
  remove_tunnel_routes-IsMirror t host =
      subst (Allowed d.self_relay_id d.router.domain host)
        (sym (get-retain (λ host route. not (text_eq route.tunnel_id t)) d.routes host))
        (Allowed-kept d.self_relay_id d.router.domain host
          (λ host route. not (text_eq route.tunnel_id t)) (get d.routes host) (m host))

  upsert_tunnel_routes-IsMirror :
      (t owner : Text)
      → is_empty owner ≡ false
      → text_eq owner d.self_relay_id ≡ false
      → IsMirror (upsert_tunnel_routes d t owner)
  unfolding upsert_tunnel_routes IsMirror
  upsert_tunnel_routes-IsMirror t owner e s host =
      subst (Allowed d.self_relay_id d.router.domain host)
        (sym (get-put d.routes (hostname_for_tunnel d.router.domain t) host _))
        (Allowed-put d.self_relay_id d.router.domain host (hostname_for_tunnel d.router.domain t) _
          (get d.routes host) (record { labelled = refl; hosted = refl; owned = e; remote = s })
          (m host))

  upsert_of_peer-IsMirror : (t owner : Text) → IsMirror (upsert_of_peer d t owner)
  unfolding upsert_of_peer
  upsert_of_peer-IsMirror t owner = elim (Bool-cases (is_empty owner)) [
    | inl e ↦ rw (e) m
    | inr e ↦ elim (Bool-cases (text_eq owner d.self_relay_id)) [
      | inl s ↦ rw (e, s) m
      | inr s ↦ rw (e, s) (upsert_tunnel_routes-IsMirror t owner e s)
    ]
  ]

  note_relay-IsMirror : (r : RelayInfo) → IsMirror (note_relay r d)
  unfolding note_relay IsMirror
  note_relay-IsMirror r host = elim (Bool-cases (is_empty r.advertise_addr)) [
    | inl e ↦ rw (e) (m host)
    | inr e ↦ rw (e) (m host)
  ]

  on_tunnel_upserted-IsMirror :
      (s : Option Session) (l : Option Lease) → IsMirror (on_tunnel_upserted d s l)
  unfolding on_tunnel_upserted
  on_tunnel_upserted-IsMirror none l = m
  on_tunnel_upserted-IsMirror (some s) l = upsert_of_peer-IsMirror s.tunnel_id (owner_of s l)

  on_lease_acquired-IsMirror : (l : Option Lease) → IsMirror (on_lease_acquired d l)
  unfolding on_lease_acquired
  on_lease_acquired-IsMirror none = m
  on_lease_acquired-IsMirror (some l) = upsert_of_peer-IsMirror l.tunnel_id l.relay_id

  on_lease_released-IsMirror : (l : Option Lease) → IsMirror (on_lease_released d l)
  unfolding on_lease_released
  on_lease_released-IsMirror none = m
  on_lease_released-IsMirror (some l) = remove_tunnel_routes-IsMirror l.tunnel_id

  on_tunnel_deleted-IsMirror : (s : Option Session) → IsMirror (on_tunnel_deleted d s)
  unfolding on_tunnel_deleted
  on_tunnel_deleted-IsMirror none = m
  on_tunnel_deleted-IsMirror (some s) = remove_tunnel_routes-IsMirror s.tunnel_id

module _ (fl : Float64) (d : DistributedRouter fl.F) (m : IsMirror d) where
  on_relay_upserted-IsMirror : (r : Option RelayInfo) → IsMirror (on_relay_upserted fl d r)
  unfolding on_relay_upserted note_relay IsMirror
  on_relay_upserted-IsMirror none host = m host
  on_relay_upserted-IsMirror (some r) host = elim (Bool-cases (is_empty r.advertise_addr)) [
    | inl e ↦ rw (e) (m host)
    | inr e ↦ rw (e) (m host)
  ]

  on_health-IsMirror :
      (r : Option RelayInfo) (h : Option RelayHealth) → IsMirror (on_health fl d r h)
  unfolding on_health IsMirror
  on_health-IsMirror none none host = m host
  on_health-IsMirror none (some h) host = m host
  on_health-IsMirror (some r) none host = note_relay-IsMirror d m r host
  on_health-IsMirror (some r) (some h) host = note_relay-IsMirror d m r host

  -- An event keeps the mirror.
  pub handle_event-IsMirror : (e : RegistryEvent) → IsMirror (handle_event fl d e)
  unfolding handle_event
  handle_event-IsMirror e = of_type e.type
    where
      of_type : (type : EventType) → IsMirror (dispatch fl type d e)
      of_type relay_upserted = on_relay_upserted-IsMirror e.relay
      of_type relay_health_updated = on_health-IsMirror e.relay e.health
      of_type tunnel_upserted = on_tunnel_upserted-IsMirror d m e.tunnel e.lease
      of_type lease_acquired = on_lease_acquired-IsMirror d m e.lease
      of_type lease_released = on_lease_released-IsMirror d m e.lease
      of_type tunnel_deleted = on_tunnel_deleted-IsMirror d m e.tunnel
      of_type unknown_event = m

-- Whatever events the registry sends, every route that the mirror holds stays labelled `default`,
-- stands under the host name of its tunnel, and has an owner that is neither empty nor this gateway, if
-- that held of every route before.
pub run-IsMirror :
    (fl : Float64) (d : DistributedRouter fl.F) (events : List RegistryEvent)
    → IsMirror d
    → IsMirror (run fl d events)
unfolding run
run-IsMirror fl d [] m = m
run-IsMirror fl d (e ∷ events) m =
    run-IsMirror fl (handle_event fl d e) events (handle_event-IsMirror fl d m e)

-- A new gateway's mirror holds nothing.
pub new_distributed-IsMirror :
    (fl : Float64) (self domain : Text) (r : TunnelRouter)
    → IsMirror (new_distributed fl self domain r)
unfolding IsMirror get
new_distributed-IsMirror fl self domain r host = tt

abbrev pub has_route : Option RemoteRoute → Bool
has_route none = false
has_route (some r) = true

has_route-peer_route :
    (self domain host : Text) (o : Option RemoteRoute)
    → Allowed self domain host o
    → has_route (peer_route self o) ≡ has_route o
unfolding peer_route
has_route-peer_route self domain host none a = refl
has_route-peer_route self domain host (some r) a = rw (a.remote) refl

-- Lookup finds every route of a mirror.
pub lookup_peer-IsMirror :
    {F : Type 0} (d : DistributedRouter F) (host : Text)
    → IsMirror d
    → has_route (lookup_peer d host) ≡ has_route (get d.routes host)
unfolding lookup_peer IsMirror
lookup_peer-IsMirror d host m =
    has_route-peer_route d.self_relay_id d.router.domain host (get d.routes host) (m host)
