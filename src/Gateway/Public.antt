-- ===== src/Gateway/Public.antt =====
-- internal/gateway/public_handler.go: handlePublicConnection, from the TLS handshake's server name to the
-- stream that it would open. The net/netip package is a parameter, and so is the repository of access
-- rules. A limit that is not positive is written 0.
pub mod Rules
pub mod Admitted
pub mod Regular
use tunneledge.Common.{
  Text, ℕ, Bool, true, false, List, [], ◌∷◌, Option, none, some, codes, is_empty, text_eq, leb, ltb,
  ◌&&◌, ◌||◌, if◌then◌else◌,
}
use tunneledge.Errs.{Result, ok, err}
use tunneledge.Gateway.Distributed.{RemoteRoute}
use tunneledge.Gateway.Handshake.Served.{absent_conn}
use tunneledge.Gateway.Router.{RouteKey, lookup_with_label}
use tunneledge.Gateway.Tunnels.{Gateway, GatewayTunnel, get_tunnel}
use tunneledge.Streams.{count_by_tunnel}

-- TunnelACL, without the ID, the tunnel's ID and the time
pub record TunnelAcl : Type 0 where
  pub acl_type : Text
  pub cidr : Text

-- maxStreams and maxStreamsPerTunnel
pub record Limits : Type 0 where
  pub max_streams : ℕ
  pub max_streams_per_tunnel : ℕ

-- Where a connection ends: each early return, and `admitted` where OpenStreamSync is called on the
-- tunnel's connection. `crashes` is the call on a connection that is nil.
pub data Outcome : Type 0 where
  no_hostname unknown_hostname missing_tunnel reconnecting : Outcome
  forwarded : RemoteRoute → Outcome
  stream_limit tunnel_stream_limit acl_denied acl_not_allowed crashes : Outcome
  admitted : Text → Text → ℕ → Outcome

-- The loop over acls returned, or it ended with `allowed`.
pub data Verdict : Type 0 where
  denies : Verdict
  ends : Bool → Verdict

-- g.maxStreams > 0 && CountByTunnel >= g.maxStreams
abbrev pub reached : ℕ → ℕ → Bool
reached limit n = ltb 0 limit && leb limit n

module _ {Prefix Addr : Type 0} (parse_prefix : Text → Option Prefix)
    (contains : Prefix → Addr → Bool) where
  -- ParsePrefix and Contains: a rule that does not parse is passed over.
  abbrev pub covers : Addr → Option Prefix → Bool
  covers client none = false
  covers client (some prefix) = contains prefix client

  -- The loop over acls
  unfoldable pub acl_loop : List TunnelAcl → Addr → Bool → Verdict
  acl_loop [] client allowed = ends allowed
  acl_loop (acl ∷ acls) client allowed =
      let hit = covers client (parse_prefix acl.cidr) in
      let rest = acl_loop acls client (allowed || hit) in
      if hit && text_eq acl.acl_type (codes "deny") then denies else rest

  abbrev pub after_rules : Outcome → Verdict → Outcome
  after_rules next denies = acl_denied
  after_rules next (ends false) = acl_not_allowed
  after_rules next (ends true) = next

  abbrev pub check_rules : Addr → Outcome → Result (List TunnelAcl) → Outcome
  check_rules client next (err e) = next
  check_rules client next (ok []) = next
  check_rules client next (ok (acl ∷ acls)) = after_rules next (acl_loop (acl ∷ acls) client false)

  -- An address that does not parse is not checked.
  abbrev pub check_client : Option Addr → Outcome → Result (List TunnelAcl) → Outcome
  check_client none next acls = next
  check_client (some client) next acls = check_rules client next acls

  -- if g.tunnelACLs != nil
  abbrev pub check_acls :
      Option (Text → Result (List TunnelAcl)) → Option Addr → Text → Outcome → Outcome
  check_acls none client id next = next
  check_acls (some list_acls) client id next = check_client client next (list_acls id)

  abbrev pub opens : Text → Text → Option ℕ → Outcome
  opens id label none = crashes
  opens id label (some conn) = admitted id label conn

  module _ (limits : Limits) (acls : Option (Text → Result (List TunnelAcl)))
      (client : Option Addr) where
    -- From the count of the tunnel's streams on
    abbrev pub limited : ℕ → RouteKey → GatewayTunnel → Outcome
    limited n key at =
        if reached limits.max_streams n
        then stream_limit
        else if reached limits.max_streams_per_tunnel n
        then tunnel_stream_limit
        else check_acls acls client key.tunnel_id (opens key.tunnel_id key.label at.conn)

    abbrev pub found_tunnel : ℕ → RouteKey → Option GatewayTunnel → Outcome
    found_tunnel n key none = missing_tunnel
    found_tunnel n key (some at) =
        if at.suspended || absent_conn at.conn then reconnecting else limited n key at

    -- Not in the local table: the distributed router's
    abbrev pub elsewhere : Option RemoteRoute → Outcome
    elsewhere none = unknown_hostname
    elsewhere (some remote) = forwarded remote

    abbrev pub routed :
        {Raw : Type 0} → Gateway Raw → Option RemoteRoute → Option RouteKey → Outcome
    routed g remote none = elsewhere remote
    routed g remote (some key) =
        found_tunnel (count_by_tunnel g.streams key.tunnel_id) key (get_tunnel g key.tunnel_id)

    -- handlePublicConnection: `remote` is what distRouter.Lookup(hostname) returns.
    unfoldable pub handle_public_connection :
        {Raw : Type 0} → Gateway Raw → Option RemoteRoute → Text → Outcome
    handle_public_connection g remote hostname =
        if is_empty hostname
        then no_hostname
        else routed g remote (lookup_with_label g.router hostname)
