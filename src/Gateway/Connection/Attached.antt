-- ===== src/Gateway/Connection/Attached.antt =====
-- internal/gateway/agent_handler.go: the connection whose loops run is the one in the table.
use tunneledge.Common.{
  ℕ, ◌==◌, Bool, true, false, List, [], Option, none, some, codes, if◌then◌else◌, Bool-cases, inl,
  inr,
}
use tunneledge.Errs.{GoError, Result, ok, err}
use tunneledge.Gateway.Connection.{
  Frames, Peer, Connection, close_with, registering, authenticated, switch_auth, retry,
  resume_replied, resuming, switch_type, after_hello, greeted, typed, accepting,
  handle_agent_connection,
}
use tunneledge.Gateway.Handshake.{Settings, Calls, Handled, Accepted}
use tunneledge.Gateway.Handshake.V1.{handle_v1_auth}
use tunneledge.Gateway.Handshake.V2.{handle_v2_auth}
use tunneledge.Gateway.Tunnels.{Gateway, Effect, handle_session_resume}
use tunneledge.Transport.Messages.{
  HelloMessage, SessionResumeMessage, SessionResumeRespMessage, protocol_version, msg_hello,
  msg_auth, msg_auth_v2, msg_session_resume, resume_status_resumed,
}
use tunneledge.Gateway.Connection.Admission.{
  Serves, Accepts, handle_v1_auth-Accepts, handle_v2_auth-Accepts,
}
use tunneledge.Gateway.Connection.Resumption.{Resumes, resume_in-Resumes}

module _ {Raw : Type 0} (close_raw : Raw → Option GoError) (cfg : Settings) (calls : Calls)
    (frames : Frames) (peer : Peer) where
  abbrev IsServed : Connection Raw → Type 0
  IsServed c = Serves peer.conn c.gateway c.ending

  authenticated-IsServed :
      (h : Handled Raw) (o : Result Accepted)
      → Accepts peer.conn h.gateway o
      → IsServed (authenticated close_raw cfg calls frames peer h o)
  authenticated-IsServed h (err e) a = tt
  authenticated-IsServed h (ok accepted) a = registered (peer.register_tunnel accepted)
    where
      registered :
          (o : Option GoError) → IsServed (registering close_raw cfg calls frames peer h accepted o)
      registered none = a
      registered (some e) = tt

  switch_auth-IsServed :
      (g : Gateway Raw) (effects : List Effect) (msg_type : ℕ)
      → IsServed (switch_auth close_raw cfg calls frames peer g effects msg_type)
  switch_auth-IsServed g effects msg_type = elim (Bool-cases (msg_type == msg_auth_v2)) [
    | inl e ↦ rw e (
        authenticated-IsServed (handle_v2_auth cfg calls g peer.conn frames.auth_v2) _
          (handle_v2_auth-Accepts cfg calls peer.conn g frames.auth_v2))
    | inr e ↦ elim (Bool-cases (msg_type == msg_auth)) [
      | inl f ↦
          rw (e, f)
            (authenticated-IsServed (handle_v1_auth cfg calls g peer.conn frames.auth) _
              (handle_v1_auth-Accepts cfg calls peer.conn g frames.auth))
      | inr f ↦ rw (e, f) tt
    ]
  ]

  retry-IsServed :
      (g : Gateway Raw) (effects : List Effect) (o : Result ℕ)
      → IsServed (retry close_raw cfg calls frames peer g effects o)
  retry-IsServed g effects (err e) = tt
  retry-IsServed g effects (ok next_type) = switch_auth-IsServed g effects next_type

  resume_replied-IsServed :
      (g : Gateway Raw) (reply : SessionResumeRespMessage) (effects : List Effect)
      (o : Option GoError)
      → Resumes peer.conn g reply
      → IsServed (resume_replied close_raw cfg calls frames peer g reply effects o)
  resume_replied-IsServed g reply effects (some e) s = tt
  resume_replied-IsServed g reply effects none s =
      elim (Bool-cases (reply.status == resume_status_resumed)) [
        | inl e ↦ rw e (s e)
        | inr e ↦ rw e (retry-IsServed g effects frames.type_after_resume)
      ]

  resuming-IsServed :
      (g : Gateway Raw) (o : Result SessionResumeMessage)
      → IsServed (resuming close_raw cfg calls frames peer g o)
  unfolding handle_session_resume
  resuming-IsServed g (err e) = tt
  resuming-IsServed g (ok m) =
      let out =
        handle_session_resume g m.token cfg.session_resume_ttl calls.now calls.resume_token
          peer.conn in
      resume_replied-IsServed out.0 out.1 out.2 peer.resume_written (
        resume_in-Resumes peer.conn g m.token cfg.session_resume_ttl calls.now calls.resume_token
          g.sessions)

  switch_type-IsServed :
      (g : Gateway Raw) (msg_type : ℕ)
      → IsServed (switch_type close_raw cfg calls frames peer g msg_type)
  switch_type-IsServed g msg_type = elim (Bool-cases (msg_type == msg_session_resume)) [
    | inl e ↦ rw e (resuming-IsServed g frames.session_resume)
    | inr e ↦ rw e (switch_auth-IsServed g [] msg_type)
  ]

  after_hello-IsServed :
      (g : Gateway Raw) (o : Result ℕ) → IsServed (after_hello close_raw cfg calls frames peer g o)
  after_hello-IsServed g (err e) = tt
  after_hello-IsServed g (ok msg_type) = switch_type-IsServed g msg_type

  greeted-IsServed :
      (g : Gateway Raw) (o : Result HelloMessage)
      → IsServed (greeted close_raw cfg calls frames peer g o)
  greeted-IsServed g (err e) = tt
  greeted-IsServed g (ok hello) = elim (Bool-cases (hello.version == protocol_version)) [
    | inl e ↦ rw e (after_hello-IsServed g frames.type_after_hello)
    | inr e ↦ rw e tt
  ]

  typed-IsServed :
      (g : Gateway Raw) (o : Result ℕ) → IsServed (typed close_raw cfg calls frames peer g o)
  typed-IsServed g (err e) = tt
  typed-IsServed g (ok hello_type) = elim (Bool-cases (hello_type == msg_hello)) [
    | inl e ↦ rw e (greeted-IsServed g frames.hello)
    | inr e ↦ rw e (switch_type-IsServed g hello_type)
  ]

  -- Wherever handleAgentConnection goes on to the loops of a tunnel, after a resume or a handshake, the
  -- gateway's table has this tunnel with this connection, and not as suspended.
  pub handle_agent_connection-IsServed :
      (g : Gateway Raw)
      → let c = handle_agent_connection close_raw cfg calls frames peer g in
        Serves peer.conn c.gateway c.ending
  unfolding handle_agent_connection
  handle_agent_connection-IsServed g = limited peer.allow
    where
      accepted : (o : Option GoError) → IsServed (accepting close_raw cfg calls frames peer g o)
      accepted (some e) = tt
      accepted none = typed-IsServed g frames.first_type

      limited :
          (allow : Bool)
          → IsServed (
              if allow
              then accepting close_raw cfg calls frames peer g peer.accept_stream
              else close_with close_raw cfg calls frames peer g [] (codes "rate limit exceeded"))
      limited true = accepted peer.accept_stream
      limited false = tt
