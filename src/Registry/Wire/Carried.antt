-- ===== src/Registry/Wire/Carried.antt =====
-- internal/registry/server.go, client.go and internal/gateway/distributed_router.go: a gateway that
-- receives the events of the registry through its service.
use tunneledge.Common.{Text, ◌≡◌, refl, List, [], ◌∷◌, Option, none, some, arith}
use tunneledge.Domain.{
  Session, Lease, RelayInfo, RelayHealth, RegistryEvent, EventType, unknown_event, tunnel_upserted,
  tunnel_deleted, lease_acquired, lease_released, relay_upserted, relay_health_updated,
}
use tunneledge.Gateway.Distributed.{
  DistributedRouter, upsert_tunnel_routes, remove_tunnel_routes, note_relay, owner_of,
  upsert_of_peer, on_tunnel_upserted, on_lease_acquired, on_lease_released, on_tunnel_deleted,
  on_relay_upserted, on_health, dispatch, handle_event, run,
}
use tunneledge.Gateway.Scorer.{Float64}
use tunneledge.Registry.Wire.{
  unix, from_unix, WatchResponse, session_to_proto, lease_to_proto, relay_to_proto,
  relay_health_to_proto, tunnel_id_of, deleted_tunnel, domain_event_to_proto, response_of,
}
use tunneledge.Registry.Wire.Received.{
  session_from_proto, lease_from_proto, relay_info_from_proto, relay_health_from_proto,
  registry_event_from_proto,
}

-- The two routers are equal but for their scorers.
abbrev pub SameRoutes : {F : Type 0} → DistributedRouter F → DistributedRouter F → Type 0
SameRoutes d d' =
    d.routes ≡ d'.routes
    × d.relays ≡ d'.relays
    × d.self_relay_id ≡ d'.self_relay_id
    × d.router ≡ d'.router

-- The relay that arrives.
abbrev received_relay : RelayInfo → RelayInfo
received_relay r = record r { last_seen = from_unix (unix r.last_seen); region = [] }

module _ {F : Type 0} (d d' : DistributedRouter F) (s : SameRoutes d d') where
  upsert_of_peer-SameRoutes :
      (t owner : Text) → SameRoutes (upsert_of_peer d t owner) (upsert_of_peer d' t owner)
  unfolding upsert_of_peer upsert_tunnel_routes
  upsert_of_peer-SameRoutes t owner = ground arith

  remove_tunnel_routes-SameRoutes :
      (t : Text) → SameRoutes (remove_tunnel_routes d t) (remove_tunnel_routes d' t)
  unfolding remove_tunnel_routes
  remove_tunnel_routes-SameRoutes t = ground arith

  note_relay-SameRoutes :
      (r : RelayInfo) → SameRoutes (note_relay r d) (note_relay (received_relay r) d')
  unfolding note_relay
  note_relay-SameRoutes r = ground arith

-- The events that the registry publishes: a TunnelUpserted event has no lease, and a TunnelDeleted event
-- has a tunnel.
abbrev HasTunnel : Option Session → Type 0
HasTunnel none = ⊥
HasTunnel (some s) = Unit

abbrev pub IsShaped : EventType → RegistryEvent → Type 0
IsShaped tunnel_upserted e = e.lease ≡ none
IsShaped tunnel_deleted e = HasTunnel e.tunnel
IsShaped lease_acquired e = Unit
IsShaped lease_released e = Unit
IsShaped relay_upserted e = Unit
IsShaped relay_health_updated e = Unit
IsShaped unknown_event e = Unit

abbrev pub AllShaped : List RegistryEvent → Type 0
AllShaped [] = Unit
AllShaped (e ∷ es) = IsShaped e.type e × AllShaped es

abbrev pub receive : Option WatchResponse → List RegistryEvent → List RegistryEvent
receive none es = es
receive (some m) es = registry_event_from_proto m ∷ es

-- What a Watch without filters hands to its client of the events, in their order.
unfoldable pub received : List RegistryEvent → List RegistryEvent
unfolding domain_event_to_proto registry_event_from_proto
received [] = []
received (e ∷ es) = receive (domain_event_to_proto e) (received es)

module _ (fl : Float64) where
  abbrev after : DistributedRouter fl.F → Option WatchResponse → DistributedRouter fl.F
  after d none = d
  after d (some m) = handle_event fl d (registry_event_from_proto m)

  module _ (d d' : DistributedRouter fl.F) (s : SameRoutes d d') where
    on_tunnel_upserted-SameRoutes :
        (o : Option Session) (l : Option Lease)
        → l ≡ none
        → SameRoutes
            (on_tunnel_upserted d o l)
            (on_tunnel_upserted d' (session_from_proto (session_to_proto o)) none)
    unfolding on_tunnel_upserted owner_of
    on_tunnel_upserted-SameRoutes none l h = s
    on_tunnel_upserted-SameRoutes (some x) l h =
        rw h (upsert_of_peer-SameRoutes d d' s x.tunnel_id x.owner_relay_id)

    on_tunnel_deleted-SameRoutes :
        (o : Option Session)
        → HasTunnel o
        → SameRoutes
            (on_tunnel_deleted d o)
            (on_tunnel_deleted d' (session_from_proto (some (deleted_tunnel (tunnel_id_of o)))))
    unfolding on_tunnel_deleted
    on_tunnel_deleted-SameRoutes none h = absurd h
    on_tunnel_deleted-SameRoutes (some x) h = remove_tunnel_routes-SameRoutes d d' s x.tunnel_id

    on_lease_acquired-SameRoutes :
        (o : Option Lease)
        → SameRoutes
            (on_lease_acquired d o)
            (on_lease_acquired d' (lease_from_proto (lease_to_proto o)))
    unfolding on_lease_acquired
    on_lease_acquired-SameRoutes none = s
    on_lease_acquired-SameRoutes (some l) = upsert_of_peer-SameRoutes d d' s l.tunnel_id l.relay_id

    on_lease_released-SameRoutes :
        (o : Option Lease)
        → SameRoutes
            (on_lease_released d o)
            (on_lease_released d' (lease_from_proto (lease_to_proto o)))
    unfolding on_lease_released
    on_lease_released-SameRoutes none = s
    on_lease_released-SameRoutes (some l) = remove_tunnel_routes-SameRoutes d d' s l.tunnel_id

    on_relay_upserted-SameRoutes :
        (o : Option RelayInfo)
        → SameRoutes
            (on_relay_upserted fl d o)
            (on_relay_upserted fl d' (relay_info_from_proto (relay_to_proto o)))
    unfolding on_relay_upserted
    on_relay_upserted-SameRoutes none = s
    on_relay_upserted-SameRoutes (some r) = ground arith

    on_health-SameRoutes :
        (r : Option RelayInfo) (h : Option RelayHealth)
        → SameRoutes (on_health fl d r h) (
            on_health fl d'
              (relay_info_from_proto (relay_to_proto r))
              (relay_health_from_proto (relay_health_to_proto h)))
    unfolding on_health
    on_health-SameRoutes none none = s
    on_health-SameRoutes none (some h) = s
    on_health-SameRoutes (some r) none = note_relay-SameRoutes d d' s r
    on_health-SameRoutes (some r) (some h) = note_relay-SameRoutes d d' s r

    dispatch-SameRoutes :
        (type : EventType) (e : RegistryEvent)
        → IsShaped type e
        → SameRoutes (dispatch fl type d e) (after d' (response_of type e))
    unfolding handle_event registry_event_from_proto
    dispatch-SameRoutes tunnel_upserted e h = on_tunnel_upserted-SameRoutes e.tunnel e.lease h
    dispatch-SameRoutes tunnel_deleted e h = on_tunnel_deleted-SameRoutes e.tunnel h
    dispatch-SameRoutes lease_acquired e h = on_lease_acquired-SameRoutes e.lease
    dispatch-SameRoutes lease_released e h = on_lease_released-SameRoutes e.lease
    dispatch-SameRoutes relay_upserted e h = on_relay_upserted-SameRoutes e.relay
    dispatch-SameRoutes relay_health_updated e h = on_health-SameRoutes e.relay e.health
    dispatch-SameRoutes unknown_event e h = s

  run-receive :
      (d : DistributedRouter fl.F) (o : Option WatchResponse) (es : List RegistryEvent)
      → run fl d (receive o es) ≡ run fl (after d o) es
  unfolding run
  run-receive d none es = refl
  run-receive d (some m) es = refl

  run-SameRoutes :
      (d d' : DistributedRouter fl.F) (es : List RegistryEvent)
      → SameRoutes d d'
      → AllShaped es
      → SameRoutes (run fl d es) (run fl d' (received es))
  unfolding run received handle_event domain_event_to_proto
  run-SameRoutes d d' [] s h = s
  run-SameRoutes d d' (e ∷ es) s (h, hs) =
      rw (run-receive d' (response_of e.type e) (received es)) (
        run-SameRoutes (dispatch fl e.type d e) (after d' (response_of e.type e)) es
          (dispatch-SameRoutes d d' s e.type e h) hs)

  -- A gateway that receives the registry's events through the service, where times lose their fractions
  -- and the messages have no regions and no addresses of health reports, comes to the same routes and
  -- the same relay addresses as one that handles the events themselves, if the events are shaped as
  -- the registry publishes them.
  pub run-received :
      (d : DistributedRouter fl.F) (es : List RegistryEvent)
      → AllShaped es
      → SameRoutes (run fl d es) (run fl d (received es))
  run-received d es h = run-SameRoutes d d es (refl, refl, refl, refl) h
