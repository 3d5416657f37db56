-- ===== src/Transport/Decode.antt =====
-- internal/transport/transport.go: ReadMessageType and the Decode functions of a reader but those of
-- the V2 messages.
use tunneledge.Common.{Text, ℕ, not, [], ◌∷◌, ltb, ◌==◌}
use tunneledge.Errs.{coded, new, invalid_arg}
use tunneledge.Transport.Wire.{byte_at, uint16_at}
use tunneledge.Transport.Reader.{
  Decoder, ◌>>=◌, ◌>>◌, pure, reject, read_raw, read_full, read_optional,
}
use tunneledge.Transport.Messages.{
  msg_auth, msg_auth_response, msg_stream_label, msg_session_resume, msg_session_resume_resp,
  max_version_len, max_token_len, max_tunnel_id_len, max_public_url_len, max_resume_token_len,
  max_label_len, HelloMessage, AuthMessage, AuthResponseMessage, SessionResumeMessage,
  SessionResumeRespMessage,
}

unfoldable pub read_message_type : Decoder ℕ
read_message_type = do buf ← read_raw 1; pure (byte_at buf 0)

unfoldable pub decode_hello : Decoder HelloMessage
decode_hello = do
  header ← read_full "failed to read hello frame" 4
  let version = uint16_at header 0
  let cv_len = uint16_at header 2
  reject (ltb max_version_len cv_len) (new invalid_arg "client version string too long")
  cv ← read_optional "failed to read client version" cv_len
  pure (record { version = version; client_version = cv })

unfoldable pub decode_auth : Decoder AuthMessage
decode_auth = do
  header ← read_full "failed to read auth header" 3
  reject (not (byte_at header 0 == msg_auth)) (
      coded invalid_arg "expected auth message type 0x01, got 0x%02x"
        ((byte_at header 0 ∷ []) ∷ []))
  let token_len = uint16_at header 1
  reject (ltb max_token_len token_len) (new invalid_arg "token too long")
  token ← read_full "failed to read auth token" token_len
  pure (record { token = token })

unfoldable pub decode_auth_response : Decoder AuthResponseMessage
decode_auth_response = do
  header ← read_full "failed to read auth response header" 6
  reject (not (byte_at header 0 == msg_auth_response)) (
      coded invalid_arg "expected auth response type 0x02, got 0x%02x"
        ((byte_at header 0 ∷ []) ∷ []))
  let status = byte_at header 1
  let id_len = uint16_at header 2
  let url_len = uint16_at header 4
  reject (ltb max_tunnel_id_len id_len) (new invalid_arg "tunnel_id too long")
  reject (ltb max_public_url_len url_len) (new invalid_arg "public_url too long")
  tunnel_id ← read_optional "failed to read auth response tunnel_id" id_len
  public_url ← read_optional "failed to read auth response public_url" url_len
  pure (record { status = status; tunnel_id = tunnel_id; public_url = public_url })

unfoldable pub decode_session_resume : Decoder SessionResumeMessage
decode_session_resume = do
  header ← read_full "failed to read session resume header" 3
  reject (not (byte_at header 0 == msg_session_resume)) (
      coded invalid_arg "expected session resume type 0x09, got 0x%02x"
        ((byte_at header 0 ∷ []) ∷ []))
  let token_len = uint16_at header 1
  reject (ltb max_resume_token_len token_len) (new invalid_arg "resume token too long")
  token ← read_full "failed to read resume token" token_len
  pure (record { token = token })

unfoldable pub decode_session_resume_resp : Decoder SessionResumeRespMessage
decode_session_resume_resp = do
  header ← read_full "failed to read session resume resp header" 4
  reject (not (byte_at header 0 == msg_session_resume_resp)) (
      coded invalid_arg "expected session resume resp type 0x0A, got 0x%02x"
        ((byte_at header 0 ∷ []) ∷ []))
  let status = byte_at header 1
  let id_len = uint16_at header 2
  reject (ltb max_tunnel_id_len id_len) (new invalid_arg "tunnel_id too long")
  tunnel_id ← read_optional "failed to read resume resp tunnel_id" id_len
  nt_len_buf ← read_full "failed to read new token len" 2
  let nt_len = uint16_at nt_len_buf 0
  reject (ltb max_resume_token_len nt_len) (new invalid_arg "new resume token too long")
  new_token ← read_optional "failed to read new resume token" nt_len
  pure (record { status = status; tunnel_id = tunnel_id; new_token = new_token })

unfoldable pub decode_stream_label : Decoder Text
decode_stream_label = do
  header ← read_full "failed to read stream label header" 2
  reject (not (byte_at header 0 == msg_stream_label)) (
      coded invalid_arg "expected stream label type 0x08, got 0x%02x"
        ((byte_at header 0 ∷ []) ∷ []))
  let label_len = byte_at header 1
  reject (ltb max_label_len label_len) (new invalid_arg "label too long")
  read_full "failed to read stream label" label_len
