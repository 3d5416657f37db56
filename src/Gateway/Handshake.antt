-- ===== src/Gateway/Handshake.antt =====
-- internal/gateway/agent_handler.go: handleV1Auth and handleV2Auth, from the decoded frame to the entry
-- in the table of tunnels. What the authenticator, the registry's AcquireLease, the stream's Write, the
-- scorer and generateResumeToken return in the call are arguments.
pub mod V1
pub mod V2
pub mod Served
use tunneledge.Common.{
  Text, ℕ, ◌+◌, Bool, true, false, List, [], ◌∷◌, ◌++◌, Option, none, some, codes, is_empty,
  text_eq, leb, ltb, ◌&&◌, if◌then◌else◌,
}
use tunneledge.Common.Maps.{Dict, get, put}
use tunneledge.Domain.{Lease}
use tunneledge.Domain.TunnelId.{TunnelRoute, ActiveTunnel, new_active_tunnel}
use tunneledge.Domain.Validate.{validate_label}
use tunneledge.Errs.{GoError, plain, wrapped, Result, ok, err, ◌>>=◌, ◌>>◌}
use tunneledge.Gateway.Router.{TunnelRouter, register, register_label, deregister, deregister_all}
use tunneledge.Gateway.Tunnels.{Gateway, Effect, releases_lease, add_tunnel, count_tunnels_by_agent}
use tunneledge.Store.Sessions.{Repository, set_resumable}
use tunneledge.Transport.Messages.{
  AuthMessage, AuthV2Message, AuthV2ResponseMessage, AuthResponseMessage, TunnelEntry,
  TunnelHostEntry, auth_status_ok, auth_status_error,
}
use tunneledge.Transport.Encode.{encode_auth_response}
use tunneledge.Transport.EncodeV2.{encode_auth_v2_response}

-- The fields of Gateway that the handlers read. `public_port` is the port of publicListenAddr.
pub record Settings : Type 0 where
  pub public_port : Text
  pub region : Text
  pub max_tunnels_per_agent : ℕ
  pub session_resume_enabled : Bool
  pub session_resume_ttl : ℕ

pub data Reply : Type 0 where
  v1 : AuthResponseMessage → Reply
  v2 : AuthV2ResponseMessage → Reply

-- What the handlers return: agent ID, tunnel ID, public and local addresses.
pub record Accepted : Type 0 where
  pub agent_id : Text
  pub tunnel_id : Text
  pub public_addr : Text
  pub local_addr : Text

pub record Handled (Raw : Type 0) : Type 0 where
  pub gateway : Gateway Raw
  pub replies : List Reply
  pub effects : List Effect
  pub result : Result Accepted

-- Encode and Write: the first error
abbrev pub sending : (Text → Option GoError) → Result Text → Option GoError
sending write (err e) = some e
sending write (ok frame) = write frame

abbrev pub rejected_v1 : Reply
rejected_v1 = v1 (record { status = auth_status_error; tunnel_id = []; public_url = [] })

abbrev pub v2_message :
    ℕ → Text → List TunnelHostEntry → Text → Text → List Text → AuthV2ResponseMessage
v2_message status id hosts token region gateways = record {
  status = status;
  tunnel_id = id;
  tunnels = hosts;
  resume_token = token;
  assigned_region = region;
  suggested_gateways = gateways;
}

abbrev pub rejected_v2 : Reply
rejected_v2 = v2 (v2_message auth_status_error [] [] [] [] [])

-- fmt.Sprintf("%s:%s", hostname, port)
abbrev pub public_url : Text → Text → Text
public_url port hostname = hostname ++ (codes ":" ++ port)

-- The first loop over authMsg.Tunnels
unfoldable pub routes_of : List TunnelEntry → Result (List TunnelRoute)
routes_of [] = ok []
routes_of (t ∷ ts) = checked (validate_label t.label) t (routes_of ts)
  where
    checked :
        Result (Unit {0}) → TunnelEntry → Result (List TunnelRoute) → Result (List TunnelRoute)
    checked (err e) t rest = err (wrapped "invalid label %q: %w" (t.label ∷ []) e)
    checked (ok u) t rest = rest >>= λ routes. ok (
        record { label = t.label; local_addr = t.local_addr; tunnel_type = t.tunnel_type } ∷ routes)

-- The second loop over authMsg.Tunnels: the router, PublicHosts, the entries of the reply, and the
-- parts of the public and local addresses
pub record Registered : Type 0 where
  pub router : TunnelRouter
  pub hosts : Dict Text
  pub entries : List TunnelHostEntry
  pub public_parts : List Text
  pub local_parts : List Text

unfoldable pub register_labels :
    Text → Text → TunnelRouter → Dict Text → List TunnelEntry → Registered
register_labels port id r hosts [] = record {
  router = r;
  hosts = hosts;
  entries = [];
  public_parts = [];
  local_parts = [];
}
register_labels port id r hosts (t ∷ ts) =
    let (r', hostname) = register_label r id t.label in
    let url = public_url port hostname in
    let rest = register_labels port id r' (put hosts t.label url) ts in
    record rest {
      entries = record { label = t.label; hostname = url } ∷ rest.entries;
      public_parts = (t.label ++ (codes "=" ++ url)) ∷ rest.public_parts;
      local_parts =
          if is_empty t.local_addr
          then rest.local_parts
          else (t.label ++ (codes "=" ++ t.local_addr)) ∷ rest.local_parts;
    }

-- strings.Join(parts, ",")
unfoldable pub join : List Text → Text
join [] = []
join (part ∷ []) = part
join (part ∷ (next ∷ parts)) = part ++ (codes "," ++ join (next ∷ parts))

-- Where a resume token was made, it is stored in the repository; a failure is only logged.
abbrev pub store_resume : Text → Text → ℕ → Option Repository → Option Repository
store_resume id token deadline none = none
store_resume id token deadline (some repo) =
    if is_empty token then some repo else some (set_resumable repo id token deadline).0

-- The calls that the handlers make.
pub record Calls : Type 0 where
  pub now : ℕ
  pub authenticate : Text → Result Text
  pub acquire_lease : Text → Result Lease
  pub write : Text → Option GoError
  pub resume_token : Option Text
  pub best_relays : Text → List Text

abbrev or_empty : Option Text → Text
or_empty none = []
or_empty (some t) = t

-- The resume token of the reply: empty unless resuming is enabled and there is a repository.
abbrev pub token_for : Settings → Calls → Option Repository → Text
token_for cfg calls none = []
token_for cfg calls (some repo) =
    if cfg.session_resume_enabled then or_empty calls.resume_token else []

abbrev pub suggested : Calls → Text → List Text
suggested calls preferred = if is_empty preferred then [] else calls.best_relays preferred

abbrev pub refusal : {Raw : Type 0} → Gateway Raw → Reply → GoError → Handled Raw
refusal g reply e = record { gateway = g; replies = reply ∷ []; effects = []; result = err e }
