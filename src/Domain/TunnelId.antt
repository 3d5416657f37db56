-- ===== src/Domain/TunnelId.antt =====
-- internal/domain/tunnel.go: tunnel IDs, active tunnels and their routes.
use tunneledge.Common.{
  Text, ℕ, ◌≡◌, ◌≢◌, refl, ◌&&◌, List, [], ◌∷◌, ◌++◌, Option, none, some, codes, ltb, length, take,
  drop, text_eq, if◌then◌else◌, arith,
}
use tunneledge.Common.Maps.{Dict, get, put, get-put}

-- NewTunnelID
unfoldable pub new_tunnel_id : Text → Text
new_tunnel_id agent_id = codes "t-" ++ agent_id

-- TunnelID.AgentID
unfoldable pub agent_id : Text → Text
agent_id id = if ltb 2 (length id) && text_eq (take 2 id) (codes "t-") then drop 2 id else id

pub record TunnelRoute : Type 0 where
  pub label : Text
  pub local_addr : Text
  pub tunnel_type : Text

-- ActiveTunnel
pub record ActiveTunnel : Type 0 where
  pub id : Text
  pub agent_id : Text
  pub routes : List TunnelRoute
  pub public_hosts : Dict Text
  pub created_at : ℕ

-- NewActiveTunnel
abbrev pub new_active_tunnel : ℕ → Text → List TunnelRoute → ActiveTunnel
new_active_tunnel now agent routes = record {
  id = codes "t-" ++ agent;
  agent_id = agent;
  routes = routes;
  public_hosts = [];
  created_at = now;
}

-- The loop of ActiveTunnel.RouteMap
unfoldable pub route_map_from : Dict Text → List TunnelRoute → Dict Text
route_map_from m [] = m
route_map_from m (r ∷ rs) = route_map_from (put m r.label r.local_addr) rs

-- ActiveTunnel.RouteMap
unfoldable pub route_map : List TunnelRoute → Dict Text
unfolding route_map_from
route_map rs = route_map_from [] rs

-- The agent ID of a tunnel ID that was made from a non-empty agent ID is that agent ID.
pub agent_id-new_tunnel_id : (a : Text) → a ≢ [] → agent_id (new_tunnel_id a) ≡ a
unfolding agent_id new_tunnel_id text_eq
agent_id-new_tunnel_id [] h = absurd (h refl)
agent_id-new_tunnel_id (c ∷ a) h = ground arith

-- The address of the last route with this label.
abbrev pub last_addr : Text → List TunnelRoute → Option Text → Option Text
last_addr k [] found = found
last_addr k (r ∷ rs) found = last_addr k rs (if text_eq r.label k then some r.local_addr else found)

route_map_from-last_addr :
    (k : Text) (rs : List TunnelRoute) (m : Dict Text)
    → get (route_map_from m rs) k ≡ last_addr k rs (get m k)
unfolding route_map_from
route_map_from-last_addr k [] m = refl
route_map_from-last_addr k (r ∷ rs) m =
    rw (route_map_from-last_addr k rs (put m r.label r.local_addr))
      (rw (get-put m r.label k r.local_addr))

-- The route map gives each label the address of the last route that has the label, and no other
-- label an address.
pub route_map-last_addr :
    (k : Text) (rs : List TunnelRoute) → get (route_map rs) k ≡ last_addr k rs none
unfolding route_map get
route_map-last_addr k rs = route_map_from-last_addr k rs []
