-- ===== src/Agent/Session.antt =====
-- internal/agent/agent.go: connect from the Hello frame on, authenticateV1, authenticateV2 and
-- trySessionResume, up to streamLoop. Writing a frame, and what the decoders return, are arguments.
pub mod Agreed
use tunneledge.Common.{
  String, Text, ℕ, ◌==◌, Bool, true, false, List, [], ◌∷◌, Option, none, some, codes, is_empty,
  ◌&&◌, not, if◌then◌else◌,
}
use tunneledge.Common.Maps.{Dict, put}
use tunneledge.Errs.{GoError, plain, wrapped, Result, ok, err}
use tunneledge.Gateway.Handshake.{sending}
use tunneledge.Transport.Messages.{
  AuthResponseMessage, AuthV2Message, AuthV2ResponseMessage, SessionResumeRespMessage, TunnelEntry,
  TunnelHostEntry, auth_status_ok, resume_status_resumed,
}
use tunneledge.Transport.Encode.{encode_hello, encode_auth, encode_session_resume}
use tunneledge.Transport.EncodeV2.{encode_auth_v2}

-- The fields of Agent that connect reads: `tunnels` as the entries of the V2 message.
pub record Options : Type 0 where
  pub token : Text
  pub tunnels : List TunnelEntry
  pub preferred_region : Text
  pub session_resume_enabled : Bool

-- The fields of Agent that change.
pub record Agent : Type 0 where
  pub resume_token : Text
  pub suggested_gateways : List Text
  pub tunnel_id : Text
  pub public_urls : Dict Text

-- The stream to the gateway.
pub record AuthStream : Type 0 where
  pub write : Text → Option GoError
  pub resume_response : Result SessionResumeRespMessage
  pub auth_response : Result AuthResponseMessage
  pub auth_v2_response : Result AuthV2ResponseMessage

abbrev rejected : GoError
rejected = plain "authentication rejected by gateway" []

-- After a frame was sent: go on, or wrap the error.
abbrev after_send :
    Agent → String → Option GoError → Agent × Result (Unit {0}) → Agent × Result (Unit {0})
after_send a message none next = next
after_send a message (some e) next = (a, err (wrapped message [] e))

-- `ok` is where streamLoop is entered.
abbrev pub accepted_v1 : Agent → Result AuthResponseMessage → Agent × Result (Unit {0})
accepted_v1 a (err e) = (a, err (wrapped "failed to read auth response: %w" [] e))
accepted_v1 a (ok m) =
    if m.status == auth_status_ok
    then (
      record a { tunnel_id = m.tunnel_id; public_urls = put [] (codes "default") m.public_url },
      ok tt,
    )
    else (a, err rejected)

-- The loop over authResp.Tunnels
unfoldable pub urls_of : Dict Text → List TunnelHostEntry → Dict Text
urls_of urls [] = urls
urls_of urls (t ∷ ts) = urls_of (put urls t.label t.hostname) ts

abbrev or_old : List Text → List Text → List Text
or_old old [] = old
or_old old (x ∷ xs) = x ∷ xs

abbrev or_old_token : Text → Text → Text
or_old_token old token = if is_empty token then old else token

-- What authenticateV2 keeps of an accepting response
unfoldable pub learn : Agent → AuthV2ResponseMessage → Agent
unfolding urls_of
learn a m = record {
  resume_token = or_old_token a.resume_token m.resume_token;
  suggested_gateways = or_old a.suggested_gateways m.suggested_gateways;
  tunnel_id = m.tunnel_id;
  public_urls = urls_of [] m.tunnels;
}

abbrev pub accepted_v2 : Agent → Result AuthV2ResponseMessage → Agent × Result (Unit {0})
accepted_v2 a (err e) = (a, err (wrapped "failed to read auth v2 response: %w" [] e))
accepted_v2 a (ok m) = if m.status == auth_status_ok then (learn a m, ok tt) else (a, err rejected)

module _ (options : Options) (stream : AuthStream) where
  -- authenticateV1
  abbrev pub authenticate_v1 : Agent → Agent × Result (Unit {0})
  authenticate_v1 a =
      after_send a "failed to send auth: %w" (sending stream.write (encode_auth options.token))
        (accepted_v1 a stream.auth_response)

  -- authenticateV2
  abbrev pub authenticate_v2 : Agent → Agent × Result (Unit {0})
  authenticate_v2 a =
      after_send a "failed to send auth v2: %w"
        (sending stream.write (
          encode_auth_v2 (record {
            token = options.token;
            tunnels = options.tunnels;
            preferred_region = options.preferred_region;
          })))
        (accepted_v2 a stream.auth_v2_response)

  abbrev authenticate_tunnels : List TunnelEntry → Agent → Agent × Result (Unit {0})
  authenticate_tunnels [] a = authenticate_v1 a
  authenticate_tunnels (t ∷ ts) a = authenticate_v2 a

  -- if len(a.tunnels) > 0
  abbrev pub authenticate : Agent → Agent × Result (Unit {0})
  authenticate a = authenticate_tunnels options.tunnels a

  -- trySessionResume after the frame is sent, and what connect does with its result
  abbrev resume_answered : Agent → Result SessionResumeRespMessage → Agent × Result (Unit {0})
  resume_answered a (err e) = (
    a,
    err (
        wrapped "session resume error: %w" []
          (wrapped "failed to read session resume response: %w" [] e)),
  )
  resume_answered a (ok m) =
      if m.status == resume_status_resumed
      then (record a { resume_token = or_old_token a.resume_token m.new_token }, ok tt)
      else authenticate (record a { resume_token = [] })

  abbrev resume_sent : Agent → Option GoError → Agent × Result (Unit {0})
  resume_sent a (some e) = (
    a,
    err (wrapped "session resume error: %w" [] (wrapped "failed to send session resume: %w" [] e)),
  )
  resume_sent a none = resume_answered a stream.resume_response

  -- connect, from the Hello frame to streamLoop
  unfoldable pub connect : Agent → Agent × Result (Unit {0})
  connect a =
      after_send a "failed to send hello: %w"
        (stream.write (encode_hello (codes "tunneledge/agent")))
        (if options.session_resume_enabled && not (is_empty a.resume_token)
          then resume_sent a (sending stream.write (encode_session_resume a.resume_token))
          else authenticate a)
