-- ===== src/Gateway/Distributed/Peers.antt =====
-- What the mirror finds for a peer's tunnel after the events of its lease.
use tunneledge.Common.{
  Text, ◌≡◌, ◌≢◌, ◌↔◌, refl, ◌∙◌, Bool, false, not, [], ◌∷◌, none, some, codes, is_empty, text_eq,
  text_eq_iff, text_eq_refl, if◌then◌else◌, arith, Bool-cases, inl, inr,
}
use tunneledge.Common.Maps.{get, retain, kept, get-put, get-retain}
use tunneledge.Domain.{Lease, RegistryEvent, EventType, lease_acquired, lease_released}
use tunneledge.Gateway.Router.{hostname_for_tunnel}
use tunneledge.Gateway.Scorer.{Float64}
use tunneledge.Gateway.Distributed.{
  RemoteRoute, DistributedRouter, or_blank, peer_route, lookup_peer, upsert_tunnel_routes,
  remove_tunnel_routes, upsert_of_peer, on_lease_acquired, on_lease_released, handle_event, run,
}

abbrev pub lease_event : EventType → Lease → RegistryEvent
lease_event type l = record {
  type = type;
  tunnel = none;
  lease = some l;
  relay = none;
  health = none;
}

-- The route that the mirror makes for a lease, with the address that it knows for the owner.
abbrev pub leased_route : {F : Type 0} → DistributedRouter F → Lease → RemoteRoute
leased_route d l = record {
  tunnel_id = l.tunnel_id;
  label = codes "default";
  owner_relay_id = l.relay_id;
  owner_addr = or_blank (get d.relays l.relay_id);
}

module _ (fl : Float64) (d : DistributedRouter fl.F) (l : Lease) where
  -- Once a peer, a relay with an ID that is neither empty nor this gateway's, has a tunnel's lease, Lookup of the tunnel's host name gives the peer's route, and of
  -- any other name what it gave.
  pub lookup_peer-lease_acquired :
      (host : Text)
      → is_empty l.relay_id ≡ false
      → text_eq l.relay_id d.self_relay_id ≡ false
      → lookup_peer (handle_event fl d (lease_event lease_acquired l)) host ≡ (
          if text_eq (hostname_for_tunnel d.router.domain l.tunnel_id) host
          then some (leased_route d l)
          else lookup_peer d host)
  unfolding handle_event on_lease_acquired upsert_of_peer upsert_tunnel_routes lookup_peer
      peer_route
  lookup_peer-lease_acquired host e s =
      rw (e, s, get-put)
        (elim (Bool-cases (text_eq (hostname_for_tunnel d.router.domain l.tunnel_id) host)) [
          | inl h ↦ rw (h, s) refl
          | inr h ↦ rw (h) refl
        ])

  -- Once a tunnel's lease is released, Lookup gives the routes that it gave less the tunnel's.
  pub lookup_peer-lease_released :
      (host : Text) (r : RemoteRoute)
      → (lookup_peer (handle_event fl d (lease_event lease_released l)) host ≡ some r)
        ↔ ((lookup_peer d host ≡ some r) × (r.tunnel_id ≢ l.tunnel_id))
  unfolding handle_event on_lease_released remove_tunnel_routes lookup_peer peer_route
  lookup_peer-lease_released host r = (
    λ h. (
      ground (arith, h, law, text_eq_iff r.tunnel_id l.tunnel_id),
      λ e. ground (arith, h, law, text_eq_iff r.tunnel_id l.tunnel_id),
    ),
    λ h. ground (arith, h.0, h.1, law, text_eq_iff r.tunnel_id l.tunnel_id),
  )
    where
      keep : Text → RemoteRoute → Bool
      keep name route = not (text_eq route.tunnel_id l.tunnel_id)

      law : get (retain keep d.routes) host ≡ kept keep host (get d.routes host)
      law = get-retain keep d.routes host

-- The two events of a hand-over in the wrong order: the release that the registry sends for a peer's
-- lease before its acquisition leaves the route to the peer.
pub lookup_peer-late_acquired :
    (fl : Float64) (d : DistributedRouter fl.F) (l : Lease)
    → is_empty l.relay_id ≡ false
    → text_eq l.relay_id d.self_relay_id ≡ false
    → lookup_peer
        (run fl d (lease_event lease_released l ∷ lease_event lease_acquired l ∷ []))
        (hostname_for_tunnel d.router.domain l.tunnel_id)
      ≡ some (leased_route d l)
unfolding run handle_event on_lease_released remove_tunnel_routes
lookup_peer-late_acquired fl d l e s =
    lookup_peer-lease_acquired fl (handle_event fl d (lease_event lease_released l)) l
      (hostname_for_tunnel d.router.domain l.tunnel_id) e s
    ∙ rw (text_eq_refl) refl
