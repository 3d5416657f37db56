-- ===== src/Gateway/Public/Admitted.antt =====
-- internal/gateway/public_handler.go: which public connections reach an agent.
use tunneledge.Common.{
  Text, ℕ, ◌≡◌, refl, Bool, true, false, not, ◌&&◌, ◌||◌, List, [], ◌∷◌, Option, none, some,
  is_empty, arith, Bool-cases, inl, inr,
}
use tunneledge.Errs.{Result, ok, err}
use tunneledge.Gateway.Distributed.{RemoteRoute}
use tunneledge.Gateway.Handshake.Served.{absent_conn}
use tunneledge.Gateway.Router.{RouteKey, lookup_with_label}
use tunneledge.Gateway.Tunnels.{Gateway, GatewayTunnel, get_tunnel}
use tunneledge.Gateway.Public.{
  TunnelAcl, Limits, Outcome, no_hostname, unknown_hostname, missing_tunnel, reconnecting,
  forwarded, stream_limit, tunnel_stream_limit, acl_denied, acl_not_allowed, crashes, admitted,
  Verdict, denies, ends, reached, acl_loop, after_rules, check_rules, check_client, check_acls,
  opens, limited, found_tunnel, routed, handle_public_connection,
}
use tunneledge.Gateway.Public.Rules.{allows, some_rule, is_deny, acl_loop-allows}
use tunneledge.Streams.{count_by_tunnel}

-- Neither of the returns that a sound gateway does not take.
abbrev pub is_regular : Outcome → Bool
is_regular missing_tunnel = false
is_regular crashes = false
is_regular no_hostname = true
is_regular unknown_hostname = true
is_regular reconnecting = true
is_regular (forwarded remote) = true
is_regular stream_limit = true
is_regular tunnel_stream_limit = true
is_regular acl_denied = true
is_regular acl_not_allowed = true
is_regular (admitted id label conn) = true

abbrev pub is_admitted : Outcome → Bool
is_admitted missing_tunnel = false
is_admitted crashes = false
is_admitted no_hostname = false
is_admitted unknown_hostname = false
is_admitted reconnecting = false
is_admitted (forwarded remote) = false
is_admitted stream_limit = false
is_admitted tunnel_stream_limit = false
is_admitted acl_denied = false
is_admitted acl_not_allowed = false
is_admitted (admitted id label conn) = true

module _ {Prefix Addr : Type 0} (parse_prefix : Text → Option Prefix)
    (contains : Prefix → Addr → Bool) where
  -- The rules let the client through: it covers a rule and no deny rule, unless there is no rule or
  -- nothing to compare.
  abbrev pub rules_permit : Result (List TunnelAcl) → Addr → Bool
  rules_permit (err e) client = true
  rules_permit (ok []) client = true
  rules_permit (ok (acl ∷ acls)) client =
      not (some_rule parse_prefix contains is_deny client (acl ∷ acls))
      && some_rule parse_prefix contains (λ rule. true) client (acl ∷ acls)

  abbrev pub client_permitted : Option Addr → Result (List TunnelAcl) → Bool
  client_permitted none acls = true
  client_permitted (some client) acls = rules_permit acls client

  abbrev pub acls_permit : Option (Text → Result (List TunnelAcl)) → Option Addr → Text → Bool
  acls_permit none client id = true
  acls_permit (some list_acls) client id = client_permitted client (list_acls id)

  after_rules-eq :
      (next : Outcome) (v : Verdict)
      → is_admitted (after_rules parse_prefix contains next v) ≡ allows v && is_admitted next
  after_rules-eq next denies = refl
  after_rules-eq next (ends false) = refl
  after_rules-eq next (ends true) = refl

  check_rules-eq :
      (client : Addr) (next : Outcome) (o : Result (List TunnelAcl))
      → is_admitted (check_rules parse_prefix contains client next o)
        ≡ rules_permit o client && is_admitted next
  check_rules-eq client next (err e) = refl
  check_rules-eq client next (ok []) = refl
  check_rules-eq client next (ok (acl ∷ acls)) =
      rw
        (
          after_rules-eq next (acl_loop parse_prefix contains (acl ∷ acls) client false),
          acl_loop-allows parse_prefix contains (acl ∷ acls) client,
        )
        refl

  check_client-eq :
      (client : Option Addr) (next : Outcome) (o : Result (List TunnelAcl))
      → is_admitted (check_client parse_prefix contains client next o)
        ≡ client_permitted client o && is_admitted next
  check_client-eq none next o = refl
  check_client-eq (some client) next o = check_rules-eq client next o

  check_acls-eq :
      (acls : Option (Text → Result (List TunnelAcl))) (client : Option Addr) (id : Text)
      (next : Outcome)
      → is_admitted (check_acls parse_prefix contains acls client id next)
        ≡ acls_permit acls client id && is_admitted next
  check_acls-eq none client id next = refl
  check_acls-eq (some list_acls) client id next = check_client-eq client next (list_acls id)

  opens-eq :
      (id label : Text) (conn : Option ℕ)
      → is_admitted (opens parse_prefix contains id label conn) ≡ not (absent_conn conn)
  opens-eq id label none = refl
  opens-eq id label (some conn) = refl

  module _ (limits : Limits) (acls : Option (Text → Result (List TunnelAcl)))
      (client : Option Addr) where
    -- The tunnel has a connection, its streams are under both limits, and its rules permit the client.
    abbrev pub tunnel_permits : ℕ → RouteKey → Option GatewayTunnel → Bool
    tunnel_permits n key none = false
    tunnel_permits n key (some at) =
        (not at.suspended && not (absent_conn at.conn))
        && ((not (reached limits.max_streams n) && not (reached limits.max_streams_per_tunnel n))
            && acls_permit acls client key.tunnel_id)

    abbrev pub route_permits : {Raw : Type 0} → Gateway Raw → Option RouteKey → Bool
    route_permits g none = false
    route_permits g (some key) =
        tunnel_permits (count_by_tunnel g.streams key.tunnel_id) key (get_tunnel g key.tunnel_id)

    limited-eq :
        (n : ℕ) (key : RouteKey) (at : GatewayTunnel)
        → is_admitted (limited parse_prefix contains limits acls client n key at)
          ≡ (not (reached limits.max_streams n) && not (reached limits.max_streams_per_tunnel n))
            && (acls_permit acls client key.tunnel_id && not (absent_conn at.conn))
    limited-eq n key at = elim (Bool-cases (reached limits.max_streams n)) [
      | inl e ↦ rw e refl
      | inr e ↦ elim (Bool-cases (reached limits.max_streams_per_tunnel n)) [
        | inl f ↦ rw (e, f) refl
        | inr f ↦
            rw
              (
                e,
                f,
                check_acls-eq acls client key.tunnel_id
                    (opens parse_prefix contains key.tunnel_id key.label at.conn),
                opens-eq key.tunnel_id key.label at.conn,
              )
              refl
      ]
    ]

    found_tunnel-eq :
        (n : ℕ) (key : RouteKey) (o : Option GatewayTunnel)
        → is_admitted (found_tunnel parse_prefix contains limits acls client n key o)
          ≡ tunnel_permits n key o
    found_tunnel-eq n key none = refl
    found_tunnel-eq n key (some at) = elim (Bool-cases (at.suspended || absent_conn at.conn)) [
      | inl e ↦ rw e (ground (arith, e))
      | inr e ↦ rw (e, limited-eq n key at) (ground (arith, e))
    ]

    routed-eq :
        {Raw : Type 0} (g : Gateway Raw) (remote : Option RemoteRoute) (o : Option RouteKey)
        → is_admitted (routed parse_prefix contains limits acls client g remote o)
          ≡ route_permits g o
    routed-eq g none none = refl
    routed-eq g (some remote) none = refl
    routed-eq g remote (some key) =
        found_tunnel-eq (count_by_tunnel g.streams key.tunnel_id) key (get_tunnel g key.tunnel_id)

    -- handlePublicConnection opens a stream to an agent exactly if the client names a host that the router
    -- leads to a tunnel of the table, the tunnel has a connection and is not suspended, the number of its
    -- streams is below both limits that are set, and its access rules permit the client's address.
    pub handle_public_connection-eq :
        {Raw : Type 0} (g : Gateway Raw) (remote : Option RemoteRoute) (hostname : Text)
        → is_admitted
            (handle_public_connection parse_prefix contains limits acls client g remote hostname)
          ≡ not (is_empty hostname) && route_permits g (lookup_with_label g.router hostname)
    unfolding handle_public_connection
    handle_public_connection-eq g remote hostname = elim (Bool-cases (is_empty hostname)) [
      | inl e ↦ rw e refl
      | inr e ↦ rw (e, routed-eq g remote (lookup_with_label g.router hostname)) refl
    ]
