-- ===== src/Transport/RoundTrip/Session.antt =====
-- SessionResume and SessionResumeResp frames: what the decoder makes of an encoded message.
use tunneledge.Common.{Text, ◌≤◌, ◌≡◌, refl, ◌∷◌, ◌++◌, arith, length, le→ltb}
use tunneledge.Errs.{ok}
use tunneledge.Transport.Wire.{uint16, put_uint16, uint16_exact, field16}
use tunneledge.Transport.Messages.{
  msg_session_resume, msg_session_resume_resp, max_resume_token_len, max_tunnel_id_len,
  SessionResumeRespMessage,
}
use tunneledge.Transport.Encode.{encode_session_resume, encode_session_resume_resp}
use tunneledge.Transport.Decode.{decode_session_resume, decode_session_resume_resp}
use tunneledge.Transport.Reads.{
  Reads, Reads-bind, Reads-map, Reads-full, Reads-optional, Reads-reject,
}

decode_session_resume-Reads :
    (token : Text)
    → length token ≤ max_resume_token_len
    → Reads decode_session_resume (msg_session_resume ∷ field16 token) (record { token = token })
unfolding decode_session_resume
decode_session_resume-Reads t h =
    Reads-bind _ _ (msg_session_resume ∷ put_uint16 (uint16 (length t))) t _ (Reads-full _ 3 _ refl)
      (Reads-reject _ _ _ t refl (
        Reads-reject _ _ _ t (ground arith)
          (Reads-map _ _ t t (Reads-full _ _ t (uint16_exact _ (omega arith))))))

-- A resume token of at most 512 bytes is encoded, and decoding the frame returns it and leaves what
-- follows the frame.
pub decode_session_resume-encode_session_resume :
    (token : Text)
    → length token ≤ max_resume_token_len
    → (frame : Text) × (encode_session_resume token ≡ ok frame)
      × Reads decode_session_resume frame (record { token = token })
unfolding encode_session_resume
decode_session_resume-encode_session_resume t h = (
  msg_session_resume ∷ field16 t,
  rw (le→ltb max_resume_token_len (length t) h),
  decode_session_resume-Reads t h,
)

-- The limits of EncodeSessionResumeResp.
pub record RespFits (msg : SessionResumeRespMessage) : Type 0 where
  pub tunnel_id : length msg.tunnel_id ≤ max_tunnel_id_len
  pub new_token : length msg.new_token ≤ max_resume_token_len

module _ (msg : SessionResumeRespMessage) (fits : RespFits msg) where
  open msg use {status, tunnel_id as id, new_token as token}

  decode_session_resume_resp-Reads :
      Reads decode_session_resume_resp
        (msg_session_resume_resp ∷ status ∷ field16 id ++ field16 token)
        msg
  unfolding decode_session_resume_resp
  decode_session_resume_resp-Reads =
      Reads-bind _ _ (msg_session_resume_resp ∷ status ∷ put_uint16 (uint16 (length id)))
        (id ++ field16 token) _ (Reads-full _ 4 _ refl)
        (Reads-reject _ _ _ (id ++ field16 token) refl (
          Reads-reject _ _ _ (id ++ field16 token) (ground arith) (
            Reads-bind _ _ id (field16 token) id
              (Reads-optional _ _ id (uint16_exact _ (omega arith)))
              (Reads-bind _ _ (put_uint16 (uint16 (length token))) token _ (Reads-full _ 2 _ refl) (
                Reads-reject _ _ _ token (ground arith) (
                  Reads-map _ _ token token
                    (Reads-optional _ _ token (uint16_exact _ (omega arith)))))))))

  -- A reply within the limits is encoded, and decoding the frame returns the reply and leaves what
  -- follows the frame.
  pub decode_session_resume_resp-encode_session_resume_resp :
      (frame : Text) × (encode_session_resume_resp msg ≡ ok frame)
      × Reads decode_session_resume_resp frame msg
  unfolding encode_session_resume_resp
  decode_session_resume_resp-encode_session_resume_resp = (
    _,
    rw (le→ltb max_tunnel_id_len (length id) fits.tunnel_id)
        (rw (le→ltb max_resume_token_len (length token) fits.new_token)),
    decode_session_resume_resp-Reads,
  )
