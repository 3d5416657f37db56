-- ===== src/Gateway/Lifecycle/Removal.antt =====
-- removeTunnel, finalizeTunnelRemoval, closeAll and suspendTunnel of internal/gateway/gateway.go keep the
-- tables sound.
use tunneledge.Common.{Text, ℕ, ◌+◌, ◌≡◌, refl, List, [], ◌∷◌, Option, none, some, codes}
use tunneledge.Common.Maps.{get, remove, keys}
use tunneledge.Errs.{GoError, Result, ok, err}
use tunneledge.Gateway.Router.{lookup_with_label}
use tunneledge.Gateway.Tunnels.{
  Gateway, GatewayTunnel, take_down, remove_tunnel, finalize_tunnel_removal, suspend_tunnel,
  remove_each, close_all_tunnels, stored, store_token, suspend, suspend_found,
}
use tunneledge.Gateway.Handshake.Served.{
  IsSound, Leads-put, IsAttached-put, IsAttached-remove, removed-Leads,
}
use tunneledge.Store.Sessions.{Repository, set_resumable}

module _ {Raw : Type 0} (close_raw : Raw → Option GoError) where
  take_down-IsSound :
      (g h : Gateway Raw) (id reason : Text) (o : Option GatewayTunnel)
      → IsSound g
      → h.tunnels ≡ g.tunnels
      → h.router ≡ g.router
      → IsSound (take_down close_raw h id reason o).0
  unfolding take_down
  take_down-IsSound g h id reason none s et er = record {
    served = rw (et, er) s.served;
    attached = rw et s.attached;
  }
  take_down-IsSound g h id reason (some at) s et er = record {
    served = λ host. rw (et, er) (removed-Leads g.tunnels g.router id host (s.served host));
    attached = λ j. rw et (IsAttached-remove g.tunnels id j (s.attached j));
  }

  pub remove_tunnel-IsSound :
      (g : Gateway Raw) (id reason : Text)
      → IsSound g
      → IsSound (remove_tunnel close_raw g id reason).0
  unfolding remove_tunnel
  remove_tunnel-IsSound g id reason s =
      take_down-IsSound g g id reason (get g.tunnels id) s refl refl

  pub finalize_tunnel_removal-IsSound :
      (g : Gateway Raw) (id reason : Text)
      → IsSound g
      → IsSound (finalize_tunnel_removal close_raw g id reason).0
  unfolding finalize_tunnel_removal
  finalize_tunnel_removal-IsSound g id reason s =
      take_down-IsSound g (record g { timers = remove g.timers id }) id reason (get g.tunnels id) s
        refl refl

  remove_each-IsSound :
      (g : Gateway Raw) (ids : List Text) → IsSound g → IsSound (remove_each close_raw g ids).0
  unfolding remove_each
  remove_each-IsSound g [] s = s
  remove_each-IsSound g (id ∷ ids) s =
      remove_each-IsSound (remove_tunnel close_raw g id (codes "shutdown")).0 ids
        (remove_tunnel-IsSound g id (codes "shutdown") s)

  pub close_all_tunnels-IsSound :
      (g : Gateway Raw) → IsSound g → IsSound (close_all_tunnels close_raw g).0
  unfolding close_all_tunnels
  close_all_tunnels-IsSound g s =
      let after = remove_each-IsSound g (keys g.tunnels) s in
      record { served = after.served; attached = after.attached }

  stored-IsSound :
      (g : Gateway Raw) (id reason : Text) (ttl : ℕ) (o : Repository × Result (Unit {0}))
      → IsSound g
      → IsSound (stored close_raw g id reason ttl o).0
  stored-IsSound g id reason ttl (repo, err e) s =
      remove_tunnel-IsSound (record g { sessions = some repo }) id reason
        (record { served = s.served; attached = s.attached })
  stored-IsSound g id reason ttl (repo, ok u) s = record {
    served = s.served;
    attached = s.attached;
  }

  store_token-IsSound :
      (g : Gateway Raw) (id reason : Text) (ttl now : ℕ) (token : Text) (o : Option Repository)
      → IsSound g
      → IsSound (store_token close_raw g id reason ttl now token o).0
  store_token-IsSound g id reason ttl now token none s = s
  store_token-IsSound g id reason ttl now token (some repo) s =
      stored-IsSound g id reason ttl (set_resumable repo id token (now + ttl)) s

  suspend-IsSound :
      (g : Gateway Raw) (id reason : Text) (ttl now : ℕ) (token : Text) (at : GatewayTunnel)
      (o : Option ℕ)
      → IsSound g
      → IsSound (suspend close_raw g id reason ttl now token at o).0
  suspend-IsSound g id reason ttl now token at none s = s
  suspend-IsSound g id reason ttl now token at (some conn) s =
      store_token-IsSound _ id reason ttl now token g.sessions (record {
        served = λ host. Leads-put g.tunnels id _ (lookup_with_label g.router host) (s.served host);
        attached = λ j. IsAttached-put g.tunnels id j _ refl (s.attached j);
      })

  suspend_found-IsSound :
      (g : Gateway Raw) (id reason : Text) (ttl now : ℕ) (token : Option Text)
      (o : Option GatewayTunnel)
      → IsSound g
      → IsSound (suspend_found close_raw g id reason ttl now token o).0
  suspend_found-IsSound g id reason ttl now token none s = s
  suspend_found-IsSound g id reason ttl now none (some at) s = remove_tunnel-IsSound g id reason s
  suspend_found-IsSound g id reason ttl now (some token) (some at) s =
      suspend-IsSound g id reason ttl now token at at.conn s

  pub suspend_tunnel-IsSound :
      (g : Gateway Raw) (id reason : Text) (ttl now : ℕ) (token : Option Text)
      → IsSound g
      → IsSound (suspend_tunnel close_raw g id reason ttl now token).0
  unfolding suspend_tunnel
  suspend_tunnel-IsSound g id reason ttl now token s =
      suspend_found-IsSound g id reason ttl now token (get g.tunnels id) s
