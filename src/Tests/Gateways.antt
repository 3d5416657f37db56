-- ===== src/Tests/Gateways.antt =====
-- The gateway's theorems at a gateway with one tunnel.
use tunneledge.Common.{
  Text, ℕ, ◌≡◌, refl, true, false, not, ◌&&◌, List, [], ◌∷◌, Option, none, some, codes, text_eq,
  is_empty, if◌then◌else◌,
}
use tunneledge.Common.Maps.{get, remove}
use tunneledge.Domain.{Session}
use tunneledge.Domain.TunnelId.{new_active_tunnel}
use tunneledge.Errs.{GoError, plain, Result, ok, err}
use tunneledge.Gateway.Handshake.{Settings, Calls}
use tunneledge.Gateway.Handshake.Served.{IsSound}
use tunneledge.Gateway.Handshake.V2.{handle_v2_auth}
use tunneledge.Gateway.Lifecycle.{Reach, started, authenticated_by_v2, new_gateway, Reach-IsSound}
use tunneledge.Gateway.Lifecycle.Resume.{is_found, handle_session_resume-suspend_tunnel}
use tunneledge.Gateway.Public.{TunnelAcl, Limits, acl_loop, handle_public_connection}
use tunneledge.Gateway.Public.Admitted.{
  is_admitted, is_regular, route_permits, handle_public_connection-eq,
}
use tunneledge.Gateway.Public.Regular.{handle_public_connection-regular}
use tunneledge.Gateway.Public.Rules.{allows, some_rule, is_deny, acl_loop-allows}
use tunneledge.Gateway.Router.{lookup_with_label, new_router}
use tunneledge.Gateway.Tunnels.{
  Gateway, GatewayTunnel, suspend_tunnel, handle_session_resume, refused,
}
use tunneledge.Agent.Session.{Agent}
use tunneledge.Agent.Session.Agreed.{Agrees, handle_v2_auth-Agrees}
use tunneledge.Gateway.Connection.{Frames, Peer, handle_agent_connection}
use tunneledge.Gateway.Connection.Admission.{Serves}
use tunneledge.Gateway.Connection.Attached.{handle_agent_connection-IsServed}
use tunneledge.Store.Sessions.{Repository, find_resumable}
use tunneledge.Transport.Messages.{
  AuthV2Message, protocol_version, msg_hello, msg_auth_v2, resume_status_expired,
}

abbrev settings : Settings
settings = record {
  public_port = codes "443";
  region = codes "eu";
  max_tunnels_per_agent = 5;
  session_resume_enabled = true;
  session_resume_ttl = 60;
}

abbrev calls : Calls
calls = record {
  now = 100;
  authenticate = λ token. ok (codes "web");
  acquire_lease = λ id. ok (record {
    lease_id = codes "lease-1";
    tunnel_id = id;
    relay_id = codes "gw-1";
    expires_at = 130;
    version = 1;
  });
  write = λ frame. none;
  resume_token = some (codes "again");
  best_relays = λ region. [];
}

abbrev message : AuthV2Message
message = record {
  token = codes "secret";
  tunnels =
      record { label = codes "app"; local_addr = codes "localhost:80"; tunnel_type = codes "tcp" }
      ∷ [];
  preferred_region = [];
}

abbrev empty_gateway : Gateway ℕ
empty_gateway = new_gateway (codes "example.org") none

abbrev serving : Gateway ℕ
serving = (handle_v2_auth settings calls empty_gateway 7 (ok message)).gateway

abbrev closes : ℕ → Option GoError
closes raw = none

serving-Reach : Reach closes settings serving
serving-Reach =
    authenticated_by_v2 empty_gateway calls 7 (ok message) (started (codes "example.org") none)

Reach-IsSound_example : IsSound serving
Reach-IsSound_example = Reach-IsSound closes settings serving serving-Reach

-- Prefixes and addresses for the runs: a prefix holds the address that it equals.
abbrev prefix_of : Text → Option Text
prefix_of cidr = if is_empty cidr then none else some cidr

abbrev limits : Limits
limits = record { max_streams = 1000; max_streams_per_tunnel = 100 }

abbrev rules : List TunnelAcl
rules =
    record { acl_type = codes "allow"; cidr = codes "10.0.0.1" }
    ∷ (record { acl_type = codes "deny"; cidr = codes "10.0.0.2" } ∷ [])

abbrev rules_of : Text → Result (List TunnelAcl)
rules_of id = ok rules

abbrev host : Text
host = codes "app-web.example.org"

handle_public_connection-eq_example :
    is_admitted (
      handle_public_connection prefix_of text_eq limits
        (some rules_of)
        (some (codes "10.0.0.1"))
        serving
        none
        host)
    ≡ not (is_empty host)
      && route_permits prefix_of text_eq limits
          (some rules_of)
          (some (codes "10.0.0.1"))
          serving
          (lookup_with_label serving.router host)
handle_public_connection-eq_example =
    handle_public_connection-eq prefix_of text_eq limits (some rules_of) (some (codes "10.0.0.1"))
      serving none host

handle_public_connection-regular_example :
    is_regular (
      handle_public_connection prefix_of text_eq limits
        (some rules_of)
        (some (codes "10.0.0.2"))
        serving
        none
        host)
    ≡ true
handle_public_connection-regular_example =
    handle_public_connection-regular prefix_of text_eq limits (some rules_of)
      (some (codes "10.0.0.2")) closes settings serving none host serving-Reach

acl_loop-allows_example :
    allows (acl_loop prefix_of text_eq rules (codes "10.0.0.2") false)
    ≡ not (some_rule prefix_of text_eq is_deny (codes "10.0.0.2") rules)
      && some_rule prefix_of text_eq (λ acl. true) (codes "10.0.0.2") rules
acl_loop-allows_example = acl_loop-allows prefix_of text_eq rules (codes "10.0.0.2")

abbrev agent : Agent
agent = record { resume_token = []; suggested_gateways = []; tunnel_id = []; public_urls = [] }

handle_v2_auth-Agrees_example :
    let h = handle_v2_auth settings calls empty_gateway 7 (ok message) in
    Agrees agent h.gateway h.replies h.result
handle_v2_auth-Agrees_example =
    handle_v2_auth-Agrees settings calls agent empty_gateway 7 (ok message)

abbrev at : GatewayTunnel
at = record {
  tunnel = new_active_tunnel 100 (codes "web") [];
  conn = some 7;
  route_map = [];
  lease_id = codes "lease-1";
  suspended = false;
}

abbrev stored_session : Session
stored_session = record {
  tunnel_id = codes "t-web";
  agent_id = codes "web";
  owner_relay_id = codes "gw-1";
  lease_id = codes "lease-1";
  public_addr = [];
  local_addr = [];
  remote_addr = [];
  created_at = 10;
  last_heartbeat = 10;
  resume_token = codes "again";
  resume_deadline = some 160;
}

abbrev stored_sessions : Repository
stored_sessions = (codes "t-web", stored_session) ∷ []

abbrev connected : Gateway ℕ
connected = record {
  tunnels = (codes "t-web", at) ∷ [];
  router = new_router (codes "example.org");
  streams = [];
  timers = [];
  sessions = some stored_sessions;
}

connected-at : get connected.tunnels (codes "t-web") ≡ some at
unfolding get text_eq
connected-at = refl

stored_sessions-at : get stored_sessions (codes "t-web") ≡ some stored_session
unfolding get text_eq
stored_sessions-at = refl

fresh-other : text_eq (codes "fresh") (codes "again") ≡ false
unfolding text_eq
fresh-other = refl

again-unknown :
    is_found (find_resumable (remove stored_sessions (codes "t-web")) 120 (codes "again")) ≡ false
unfolding find_resumable remove text_eq
again-unknown = refl

handle_session_resume-suspend_tunnel_example :
    (handle_session_resume
      (suspend_tunnel closes connected
        (codes "t-web")
        (codes "lost")
        60
        110
        (some (codes "fresh"))).0
      (codes "again")
      60
      120
      none
      8).1
    ≡ refused resume_status_expired
handle_session_resume-suspend_tunnel_example =
    handle_session_resume-suspend_tunnel closes connected (codes "t-web") (codes "lost")
      (codes "fresh") (codes "again") 60 110 120 7 8 none at stored_sessions stored_session
      connected-at refl refl stored_sessions-at fresh-other again-unknown

-- An agent that says Hello and authenticates.
abbrev frames : Frames
frames = record {
  first_type = ok msg_hello;
  hello = ok (record { version = protocol_version; client_version = codes "tunneledge/agent" });
  type_after_hello = ok msg_auth_v2;
  session_resume = err (plain "no frame" []);
  type_after_resume = err (plain "no frame" []);
  auth = err (plain "no frame" []);
  auth_v2 = ok message;
}

abbrev peer : Peer
peer = record {
  conn = 7;
  allow = true;
  accept_stream = none;
  resume_written = none;
  register_tunnel = λ a. none;
}

handle_agent_connection-IsServed_example :
    let c = handle_agent_connection closes settings calls frames peer empty_gateway in
    Serves 7 c.gateway c.ending
handle_agent_connection-IsServed_example =
    handle_agent_connection-IsServed closes settings calls frames peer empty_gateway
