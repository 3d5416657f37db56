-- ===== src/Tests/Routes.antt =====
-- The theorems on routes and tunnel IDs at a gateway with one peer.
use tunneledge.Common.{
  Text, ℕ, ◌+◌, ◌-◌, ◌*◌, ◌/◌, ◌≡◌, ◌≢◌, ◌↔◌, refl, some, List, [], ◌∷◌, codes, arith, text_eq,
  if◌then◌else◌, ltb,
}
use tunneledge.Domain.{Lease, RegistryEvent, lease_acquired, lease_released}
use tunneledge.Domain.TunnelId.{new_tunnel_id, TunnelRoute}
use tunneledge.Gateway.Router.{
  TunnelRouter, RouteKey, new_router, hostname_for_tunnel, register_label, deregister_all,
  lookup_with_label,
}
use tunneledge.Gateway.Router.Lookup.{lookup-deregister_all}
use tunneledge.Gateway.Router.Hostnames.{
  NoDash, hostname_for_label-injective, register_label-takes_over,
}
use tunneledge.Gateway.Scorer.{Float64}
use tunneledge.Gateway.Distributed.{
  DistributedRouter, new_distributed, lookup_peer, handle_event, run,
}
use tunneledge.Gateway.Distributed.Routes.{IsMirror, new_distributed-IsMirror, run-IsMirror}
use tunneledge.Gateway.Distributed.Peers.{
  lease_event, leased_route, lookup_peer-lease_acquired, lookup_peer-lease_released,
}

-- Whole numbers in place of floats.
abbrev pub whole : Float64
whole = record {
  F = ℕ;
  literal = λ a b. a / b;
  of_int = λ n. n;
  of_bits = λ n. n;
  add = λ a b. a + b;
  sub = λ a b. a - b;
  mul = λ a b. a * b;
  div = λ a b. a / b;
  max = λ a b. if ltb a b then b else a;
}

abbrev domain : Text
domain = codes "edge.dev"

abbrev router : TunnelRouter
router = new_router domain

abbrev mirror : DistributedRouter ℕ
mirror = new_distributed whole (codes "gw-1") domain router

abbrev peer_lease : Lease
peer_lease = record {
  lease_id = codes "lease-1";
  tunnel_id = codes "t-web";
  relay_id = codes "gw-2";
  expires_at = 130;
  version = 1;
}

abbrev events : List RegistryEvent
events = lease_event lease_acquired peer_lease ∷ lease_event lease_released peer_lease ∷ []

run-IsMirror_example : IsMirror (run whole mirror events)
run-IsMirror_example =
    run-IsMirror whole mirror events (new_distributed-IsMirror whole (codes "gw-1") domain router)

lookup_peer-lease_acquired_example :
    lookup_peer
      (handle_event whole mirror (lease_event lease_acquired peer_lease))
      (codes "web.edge.dev")
    ≡ (if text_eq (hostname_for_tunnel domain (codes "t-web")) (codes "web.edge.dev")
        then some (leased_route mirror peer_lease)
        else lookup_peer mirror (codes "web.edge.dev"))
unfolding text_eq
lookup_peer-lease_acquired_example =
    lookup_peer-lease_acquired whole mirror peer_lease (codes "web.edge.dev") refl refl

lookup_peer-lease_released_example :
    (lookup_peer
        (handle_event whole mirror (lease_event lease_released peer_lease))
        (codes "web.edge.dev")
      ≡ some (leased_route mirror peer_lease))
    ↔ ((lookup_peer mirror (codes "web.edge.dev") ≡ some (leased_route mirror peer_lease))
        × (codes "t-web" ≢ codes "t-web"))
lookup_peer-lease_released_example =
    lookup_peer-lease_released whole mirror peer_lease (codes "web.edge.dev")
      (leased_route mirror peer_lease)

abbrev routed : TunnelRouter
routed = (register_label router (codes "t-web") (codes "api")).0

abbrev api_key : RouteKey
api_key = record { tunnel_id = codes "t-web"; label = codes "api" }

lookup-deregister_all_example :
    (lookup_with_label (deregister_all routed (codes "t-db")) (codes "api-web.edge.dev")
      ≡ some api_key)
    ↔ ((lookup_with_label routed (codes "api-web.edge.dev") ≡ some api_key)
        × (codes "t-web" ≢ codes "t-db"))
lookup-deregister_all_example =
    lookup-deregister_all routed (codes "t-db") (codes "api-web.edge.dev") api_key

api-NoDash : NoDash (codes "api")
api-NoDash =
    (λ h. absurd (omega arith), (λ h. absurd (omega arith), (λ h. absurd (omega arith), tt)))

hostname_for_label-injective_example : (codes "api" ≡ codes "api") × (codes "web" ≡ codes "web")
hostname_for_label-injective_example =
    hostname_for_label-injective domain (codes "web") (codes "web") (codes "api") (codes "api")
      api-NoDash api-NoDash refl

register_label-takes_over_example :
    let (r', host) = register_label router (new_tunnel_id (codes "eu-web")) (codes "api") in
    let (r'', host') = register_label r' (new_tunnel_id (codes "web")) (codes "api-eu") in
    (host' ≡ host)
    × (lookup_with_label r' host
        ≡ some (record { tunnel_id = new_tunnel_id (codes "eu-web"); label = codes "api" }))
    × (lookup_with_label r'' host
        ≡ some (record { tunnel_id = new_tunnel_id (codes "web"); label = codes "api-eu" }))
register_label-takes_over_example =
    register_label-takes_over router (codes "web") (codes "api") (codes "eu")

abbrev route_list : List TunnelRoute
route_list =
    record { label = codes "web"; local_addr = codes ":80"; tunnel_type = codes "http" }
    ∷ record { label = codes "web"; local_addr = codes ":81"; tunnel_type = codes "http" }
    ∷ []
