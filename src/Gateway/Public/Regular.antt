-- ===== src/Gateway/Public/Regular.antt =====
-- internal/gateway/public_handler.go: a public connection meets the tables that the handlers of agents
-- keep.
use tunneledge.Common.{
  Text, ℕ, ◌≡◌, refl, sym, Bool, true, false, ◌||◌, List, [], ◌∷◌, Option, none, some, is_empty,
  arith, Bool-cases, inl, inr,
}
use tunneledge.Errs.{GoError, Result, ok, err}
use tunneledge.Gateway.Distributed.{RemoteRoute}
use tunneledge.Gateway.Handshake.{Settings}
use tunneledge.Gateway.Handshake.Served.{absent_conn, Leads, present}
use tunneledge.Gateway.Lifecycle.{Reach, Reach-IsSound}
use tunneledge.Gateway.Router.{RouteKey, lookup_with_label}
use tunneledge.Gateway.Tunnels.{Gateway, GatewayTunnel, get_tunnel}
use tunneledge.Gateway.Public.{
  TunnelAcl, Limits, Outcome, Verdict, denies, ends, reached, after_rules, check_rules, check_acls,
  opens, limited, found_tunnel, routed, handle_public_connection,
}
use tunneledge.Gateway.Public.Admitted.{is_regular}
use tunneledge.Streams.{count_by_tunnel}

module _ {Prefix Addr : Type 0} (parse_prefix : Text → Option Prefix)
    (contains : Prefix → Addr → Bool) where
  after_rules-regular :
      (next : Outcome) (v : Verdict)
      → is_regular next ≡ true
      → is_regular (after_rules parse_prefix contains next v) ≡ true
  after_rules-regular next denies h = refl
  after_rules-regular next (ends false) h = refl
  after_rules-regular next (ends true) h = h

  check_rules-regular :
      (client : Addr) (next : Outcome) (o : Result (List TunnelAcl))
      → is_regular next ≡ true
      → is_regular (check_rules parse_prefix contains client next o) ≡ true
  check_rules-regular client next (err e) h = h
  check_rules-regular client next (ok []) h = h
  check_rules-regular client next (ok (acl ∷ acls)) h = after_rules-regular next _ h

  check_acls-regular :
      (acls : Option (Text → Result (List TunnelAcl))) (client : Option Addr) (id : Text)
      (next : Outcome)
      → is_regular next ≡ true
      → is_regular (check_acls parse_prefix contains acls client id next) ≡ true
  check_acls-regular none client id next h = h
  check_acls-regular (some list_acls) none id next h = h
  check_acls-regular (some list_acls) (some client) id next h =
      check_rules-regular client next (list_acls id) h

  opens-regular :
      (id label : Text) (conn : Option ℕ)
      → absent_conn conn ≡ false
      → is_regular (opens parse_prefix contains id label conn) ≡ true
  opens-regular id label none h = sym h
  opens-regular id label (some conn) h = refl

  module _ (limits : Limits) (acls : Option (Text → Result (List TunnelAcl)))
      (client : Option Addr) where
    limited-regular :
        (n : ℕ) (key : RouteKey) (at : GatewayTunnel)
        → absent_conn at.conn ≡ false
        → is_regular (limited parse_prefix contains limits acls client n key at) ≡ true
    limited-regular n key at h = elim (Bool-cases (reached limits.max_streams n)) [
      | inl e ↦ rw e refl
      | inr e ↦ elim (Bool-cases (reached limits.max_streams_per_tunnel n)) [
        | inl f ↦ rw (e, f) refl
        | inr f ↦
            rw (e, f)
              (check_acls-regular acls client key.tunnel_id _
                (opens-regular key.tunnel_id key.label at.conn h))
      ]
    ]

    found_tunnel-regular :
        (n : ℕ) (key : RouteKey) (o : Option GatewayTunnel)
        → present o ≡ true
        → is_regular (found_tunnel parse_prefix contains limits acls client n key o) ≡ true
    found_tunnel-regular n key none h = h
    found_tunnel-regular n key (some at) h =
        elim (Bool-cases (at.suspended || absent_conn at.conn)) [
          | inl e ↦ rw e refl
          | inr e ↦ rw e (limited-regular n key at (ground (arith, e)))
        ]

    routed-regular :
        {Raw : Type 0} (g : Gateway Raw) (remote : Option RemoteRoute) (o : Option RouteKey)
        → Leads g.tunnels o
        → is_regular (routed parse_prefix contains limits acls client g remote o) ≡ true
    routed-regular g none none h = refl
    routed-regular g (some remote) none h = refl
    routed-regular g remote (some key) h =
        found_tunnel-regular (count_by_tunnel g.streams key.tunnel_id) key
          (get_tunnel g key.tunnel_id) h

    -- In every gateway that the handlers of agents, the timers and the shutdown can lead to, each of
    -- their methods taken as one step, handlePublicConnection neither finds a host name whose tunnel is
    -- missing from the table nor calls a connection that is nil.
    pub handle_public_connection-regular :
        {Raw : Type 0} (close_raw : Raw → Option GoError) (cfg : Settings) (g : Gateway Raw)
        (remote : Option RemoteRoute) (hostname : Text)
        → Reach close_raw cfg g
        → is_regular
            (handle_public_connection parse_prefix contains limits acls client g remote hostname)
          ≡ true
    unfolding handle_public_connection
    handle_public_connection-regular close_raw cfg g remote hostname r =
        elim (Bool-cases (is_empty hostname)) [
          | inl e ↦ rw e refl
          | inr e ↦ rw e (
              routed-regular g remote (lookup_with_label g.router hostname)
                ((Reach-IsSound close_raw cfg g r).served hostname))
        ]
