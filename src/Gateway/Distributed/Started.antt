-- ===== src/Gateway/Distributed/Started.antt =====
-- internal/gateway/distributed_router.go: what a gateway learns from events that only add.
use tunneledge.Common.{
  Text, ◌≡◌, refl, ◌∙◌, Bool, true, false, not, ◌||◌, List, [], ◌∷◌, ◌++◌, Option, none, some,
  is_empty, codes, text_eq, text_eq_refl, arith, All, Bool-cases, inl, inr,
}
use tunneledge.Common.Maps.{get, get-put}
use tunneledge.Domain.{
  Session, Lease, RelayInfo, RelayHealth, RegistryEvent, EventType, unknown_event, tunnel_upserted,
  tunnel_deleted, lease_acquired, lease_released, relay_upserted, relay_health_updated,
}
use tunneledge.Gateway.Router.{hostname_for_tunnel}
use tunneledge.Gateway.Scorer.{Float64}
use tunneledge.Gateway.Distributed.{
  DistributedRouter, or_blank, upsert_tunnel_routes, note_relay, owner_of, upsert_of_peer,
  on_tunnel_upserted, on_lease_acquired, on_relay_upserted, on_health, dispatch, handle_event, run,
}
use tunneledge.Gateway.Distributed.Routes.{has_route}

-- An event that takes no route away.
abbrev pub IsAdding : EventType → Type 0
IsAdding tunnel_upserted = Unit
IsAdding tunnel_deleted = ⊥
IsAdding lease_acquired = Unit
IsAdding lease_released = ⊥
IsAdding relay_upserted = Unit
IsAdding relay_health_updated = Unit
IsAdding unknown_event = Unit

-- The gateway, with a route under a host name where one is wanted.
pub record Finds {F : Type 0} (want : Bool) (self domain host : Text) (d : DistributedRouter F)
    : Type 0 where
  pub self_is : d.self_relay_id ≡ self
  pub domain_is : d.router.domain ≡ domain
  pub found : not want || has_route (get d.routes host) ≡ true

module _ {F : Type 0} {want : Bool} {self domain host : Text} (d : DistributedRouter F)
    (f : Finds want self domain host d) where
  upsert_of_peer-Finds : (t owner : Text) → Finds want self domain host (upsert_of_peer d t owner)
  unfolding upsert_of_peer upsert_tunnel_routes
  upsert_of_peer-Finds t owner = ground (
    arith,
    f,
    get-put d.routes (hostname_for_tunnel d.router.domain t) host (record {
      tunnel_id = t;
      label = codes "default";
      owner_relay_id = owner;
      owner_addr = or_blank (get d.relays owner);
    }),
  )

  note_relay-Finds : (r : RelayInfo) → Finds want self domain host (note_relay r d)
  unfolding note_relay
  note_relay-Finds r = ground (arith, f)

  on_tunnel_upserted-Finds :
      (o : Option Session) (l : Option Lease)
      → Finds want self domain host (on_tunnel_upserted d o l)
  unfolding on_tunnel_upserted
  on_tunnel_upserted-Finds none l = f
  on_tunnel_upserted-Finds (some s) l = upsert_of_peer-Finds s.tunnel_id (owner_of s l)

  on_lease_acquired-Finds : (o : Option Lease) → Finds want self domain host (on_lease_acquired d o)
  unfolding on_lease_acquired
  on_lease_acquired-Finds none = f
  on_lease_acquired-Finds (some l) = upsert_of_peer-Finds l.tunnel_id l.relay_id

-- The scorer does not matter.
scored-Finds :
    {F : Type 0} {want : Bool} {self domain host : Text} (d d' : DistributedRouter F)
    → Finds want self domain host d
    → d'.routes ≡ d.routes
    → d'.self_relay_id ≡ d.self_relay_id
    → d'.router ≡ d.router
    → Finds want self domain host d'
scored-Finds d d' f e s r = record {
  self_is = s ∙ f.self_is;
  domain_is = rw (r) f.domain_is;
  found = rw (e) f.found;
}

module _ (fl : Float64) {want : Bool} {self domain host : Text} where
  on_relay_upserted-Finds :
      (d : DistributedRouter fl.F) (o : Option RelayInfo)
      → Finds want self domain host d
      → Finds want self domain host (on_relay_upserted fl d o)
  unfolding on_relay_upserted note_relay
  on_relay_upserted-Finds d none f = f
  on_relay_upserted-Finds d (some r) f = elim (Bool-cases (is_empty r.advertise_addr)) [
    | inl e ↦ rw e f
    | inr e ↦ rw e (record { self_is = f.self_is; domain_is = f.domain_is; found = f.found })
  ]

  on_health-Finds :
      (d : DistributedRouter fl.F) (r : Option RelayInfo) (h : Option RelayHealth)
      → Finds want self domain host d
      → Finds want self domain host (on_health fl d r h)
  unfolding on_health
  on_health-Finds d none none f = f
  on_health-Finds d none (some h) f = record {
    self_is = f.self_is;
    domain_is = f.domain_is;
    found = f.found;
  }
  on_health-Finds d (some r) none f =
      scored-Finds (note_relay r d) _ (note_relay-Finds d f r) refl refl refl
  on_health-Finds d (some r) (some h) f =
      scored-Finds (note_relay r d) _ (note_relay-Finds d f r) refl refl refl

  handle_event-Finds :
      (d : DistributedRouter fl.F) (e : RegistryEvent)
      → IsAdding e.type
      → Finds want self domain host d
      → Finds want self domain host (handle_event fl d e)
  unfolding handle_event
  handle_event-Finds d e a f = of_type e.type a
    where
      of_type :
          (type : EventType) → IsAdding type → Finds want self domain host (dispatch fl type d e)
      of_type relay_upserted a = on_relay_upserted-Finds d e.relay f
      of_type relay_health_updated a = on_health-Finds d e.relay e.health f
      of_type tunnel_upserted a = on_tunnel_upserted-Finds d f e.tunnel e.lease
      of_type lease_acquired a = on_lease_acquired-Finds d f e.lease
      of_type unknown_event a = f
      of_type tunnel_deleted a = absurd a
      of_type lease_released a = absurd a

  pub run-Finds :
      (d : DistributedRouter fl.F) (es : List RegistryEvent)
      → All (λ e. IsAdding e.type) es
      → Finds want self domain host d
      → Finds want self domain host (run fl d es)
  unfolding run
  run-Finds d [] a f = f
  run-Finds d (e ∷ es) (a, rest) f =
      run-Finds (handle_event fl d e) es rest (handle_event-Finds d e a f)

pub run-append :
    (fl : Float64) (d : DistributedRouter fl.F) (xs ys : List RegistryEvent)
    → run fl d (xs ++ ys) ≡ run fl (run fl d xs) ys
unfolding run
run-append fl d [] ys = refl
run-append fl d (e ∷ xs) ys = run-append fl (handle_event fl d e) xs ys

module _ (fl : Float64) {want : Bool} {self domain : Text} where
  -- A lease of a peer puts a route under its tunnel's host name.
  pub on_lease_acquired-adds :
      (d : DistributedRouter fl.F) (l : Lease)
      → is_empty l.relay_id ≡ false
      → text_eq l.relay_id self ≡ false
      → Finds want self domain (hostname_for_tunnel domain l.tunnel_id) d
      → Finds true self domain
          (hostname_for_tunnel domain l.tunnel_id)
          (on_lease_acquired d (some l))
  unfolding on_lease_acquired upsert_of_peer upsert_tunnel_routes
  on_lease_acquired-adds d l e s f = ground (
    arith,
    f,
    get-put d.routes (hostname_for_tunnel d.router.domain l.tunnel_id)
        (hostname_for_tunnel domain l.tunnel_id)
        (record {
          tunnel_id = l.tunnel_id;
          label = codes "default";
          owner_relay_id = l.relay_id;
          owner_addr = or_blank (get d.relays l.relay_id);
        }),
    text_eq_refl (hostname_for_tunnel domain l.tunnel_id),
  )
