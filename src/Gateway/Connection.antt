-- ===== src/Gateway/Connection.antt =====
-- internal/gateway/agent_handler.go: handleAgentConnection, from the rate limiter to the tunnel's loops. What
-- the stream holds, and what the limiter, AcceptStream, the writes and the registry answer, are arguments.
pub mod Admission
pub mod Resumption
pub mod Attached
use tunneledge.Common.{
  Text, ℕ, ◌==◌, Bool, true, false, List, [], ◌∷◌, ◌++◌, Option, none, some, codes, if◌then◌else◌,
}
use tunneledge.Errs.{GoError, Result, ok, err}
use tunneledge.Gateway.Handshake.{Settings, Calls, Handled, Accepted}
use tunneledge.Gateway.Handshake.V1.{handle_v1_auth}
use tunneledge.Gateway.Handshake.V2.{handle_v2_auth}
use tunneledge.Gateway.Tunnels.{Gateway, Effect, closes_conn, remove_tunnel, handle_session_resume}
use tunneledge.Transport.Messages.{
  HelloMessage, AuthMessage, AuthV2Message, SessionResumeMessage, SessionResumeRespMessage,
  protocol_version, msg_hello, msg_auth, msg_auth_v2, msg_session_resume, resume_status_resumed,
}

-- What ReadMessageType and the decoders return, in the order of the stream.
pub record Frames : Type 0 where
  pub first_type : Result ℕ
  pub hello : Result HelloMessage
  pub type_after_hello : Result ℕ
  pub session_resume : Result SessionResumeMessage
  pub type_after_resume : Result ℕ
  pub auth : Result AuthMessage
  pub auth_v2 : Result AuthV2Message

-- The calls that handleAgentConnection makes, besides those of the handshakes. `allow` is true where there
-- is no limiter, and `resume_written` is what sending the reply to a resume returns.
pub record Peer : Type 0 where
  pub conn : ℕ
  pub allow : Bool
  pub accept_stream : Option GoError
  pub resume_written : Option GoError
  pub register_tunnel : Accepted → Option GoError

-- The connection is closed with a reason, or the loops of a tunnel run on it.
pub data Ending : Type 0 where
  closed : Text → Ending
  serves : Text → Ending

pub record Connection (Raw : Type 0) : Type 0 where
  pub gateway : Gateway Raw
  pub effects : List Effect
  pub ending : Ending

module _ {Raw : Type 0} (close_raw : Raw → Option GoError) (cfg : Settings) (calls : Calls)
    (frames : Frames) (peer : Peer) where
  -- conn.CloseWithError(1, reason) and return
  abbrev pub close_with : Gateway Raw → List Effect → Text → Connection Raw
  close_with g effects reason = record {
    gateway = g;
    effects = effects ++ (closes_conn peer.conn reason ∷ []);
    ending = closed reason;
  }

  abbrev pub registering : Handled Raw → Accepted → Option GoError → Connection Raw
  registering h a none = record {
    gateway = h.gateway;
    effects = h.effects;
    ending = serves a.tunnel_id;
  }
  registering h a (some e) =
      let (g', effects) = remove_tunnel close_raw h.gateway a.tunnel_id (codes "registry_error") in
      close_with g' (h.effects ++ effects) (codes "registry error")

  -- From the return of the handshake to the loops
  abbrev pub authenticated : Handled Raw → Result Accepted → Connection Raw
  authenticated h (err e) = close_with h.gateway h.effects (codes "auth failed")
  authenticated h (ok a) = registering h a (peer.register_tunnel a)

  abbrev pub run_auth : List Effect → Handled Raw → Connection Raw
  run_auth effects h =
      let done = authenticated h h.result in record done { effects = effects ++ done.effects }

  -- The cases MsgAuthV2, MsgAuth and default of both switches
  abbrev pub switch_auth : Gateway Raw → List Effect → ℕ → Connection Raw
  switch_auth g effects msg_type =
      if msg_type == msg_auth_v2
      then run_auth effects (handle_v2_auth cfg calls g peer.conn frames.auth_v2)
      else if msg_type == msg_auth
      then run_auth effects (handle_v1_auth cfg calls g peer.conn frames.auth)
      else close_with g effects (codes "unknown auth type")

  -- After a resume that was refused
  abbrev pub retry : Gateway Raw → List Effect → Result ℕ → Connection Raw
  retry g effects (err e) = close_with g effects (codes "auth failed after failed resume")
  retry g effects (ok next_type) = switch_auth g effects next_type

  abbrev pub resume_replied :
      Gateway Raw → SessionResumeRespMessage → List Effect → Option GoError → Connection Raw
  resume_replied g reply effects (some e) = close_with g effects (codes "resume failed")
  resume_replied g reply effects none =
      if reply.status == resume_status_resumed
      then record { gateway = g; effects = effects; ending = serves reply.tunnel_id }
      else retry g effects frames.type_after_resume

  abbrev pub resuming : Gateway Raw → Result SessionResumeMessage → Connection Raw
  resuming g (err e) = close_with g [] (codes "resume failed")
  resuming g (ok m) =
      let (g', reply, effects) =
        handle_session_resume g m.token cfg.session_resume_ttl calls.now calls.resume_token
          peer.conn in
      resume_replied g' reply effects peer.resume_written

  -- switch msgType
  abbrev pub switch_type : Gateway Raw → ℕ → Connection Raw
  switch_type g msg_type =
      if msg_type == msg_session_resume
      then resuming g frames.session_resume
      else switch_auth g [] msg_type

  abbrev pub after_hello : Gateway Raw → Result ℕ → Connection Raw
  after_hello g (err e) = close_with g [] (codes "auth failed")
  after_hello g (ok msg_type) = switch_type g msg_type

  abbrev pub greeted : Gateway Raw → Result HelloMessage → Connection Raw
  greeted g (err e) = close_with g [] (codes "bad hello")
  greeted g (ok hello) =
      if hello.version == protocol_version
      then after_hello g frames.type_after_hello
      else close_with g [] (codes "unsupported protocol version")

  abbrev pub typed : Gateway Raw → Result ℕ → Connection Raw
  typed g (err e) = close_with g [] (codes "auth failed")
  typed g (ok hello_type) =
      if hello_type == msg_hello then greeted g frames.hello else switch_type g hello_type

  abbrev pub accepting : Gateway Raw → Option GoError → Connection Raw
  accepting g (some e) = close_with g [] (codes "failed to accept auth stream")
  accepting g none = typed g frames.first_type

  -- handleAgentConnection, up to the tunnel's loops
  unfoldable pub handle_agent_connection : Gateway Raw → Connection Raw
  handle_agent_connection g =
      if peer.allow
      then accepting g peer.accept_stream
      else close_with g [] (codes "rate limit exceeded")
