-- ===== src/Transport/Encode.antt =====
-- internal/transport/transport.go: the Encode functions but those of the V2 messages. Each gives the
-- bytes that it hands to its one call of w.Write (the datagram: that it returns), or the error that
-- it returns before.
use tunneledge.Common.{Text, ℕ, [], ◌∷◌, ◌++◌, length, take, ltb, if◌then◌else◌}
use tunneledge.Errs.{Result, ok, new, refuse, invalid_arg, ◌>>◌}
use tunneledge.Transport.Wire.{uint16, put_uint16, field8, field16}
use tunneledge.Transport.Messages.{
  msg_hello, msg_auth, msg_auth_response, msg_heartbeat, msg_stream_label, msg_session_resume,
  msg_session_resume_resp, msg_udp_datagram, protocol_version, max_version_len, max_token_len,
  max_tunnel_id_len, max_public_url_len, max_resume_token_len, max_label_len, max_src_addr_len,
  max_udp_payload_len, SessionResumeRespMessage, UdpDatagramMessage,
}

-- The client version, cut to its limit.
abbrev pub cut_version : Text → Text
cut_version vb = if ltb max_version_len (length vb) then take max_version_len vb else vb

unfoldable pub encode_hello : Text → Text
encode_hello client_version =
    msg_hello ∷ put_uint16 protocol_version ++ field16 (cut_version client_version)

unfoldable pub encode_auth : Text → Result Text
encode_auth token = do
  refuse (ltb max_token_len (length token)) (new invalid_arg "token too long")
  ok (msg_auth ∷ field16 token)

unfoldable pub encode_auth_response : ℕ → Text → Text → Result Text
encode_auth_response status tunnel_id public_url = do
  refuse (ltb max_tunnel_id_len (length tunnel_id)) (new invalid_arg "tunnel_id too long")
  refuse (ltb max_public_url_len (length public_url)) (new invalid_arg "public_url too long")
  ok (
      msg_auth_response
        ∷ status
        ∷ (put_uint16 (uint16 (length tunnel_id)) ++ put_uint16 (uint16 (length public_url)))
      ++ (tunnel_id ++ public_url))

unfoldable pub encode_heartbeat : Text
encode_heartbeat = msg_heartbeat ∷ []

unfoldable pub encode_session_resume : Text → Result Text
encode_session_resume token = do
  refuse (ltb max_resume_token_len (length token)) (new invalid_arg "resume token too long")
  ok (msg_session_resume ∷ field16 token)

unfoldable pub encode_session_resume_resp : SessionResumeRespMessage → Result Text
encode_session_resume_resp msg = do
  refuse (ltb max_tunnel_id_len (length msg.tunnel_id)) (new invalid_arg "tunnel_id too long")
  refuse (ltb max_resume_token_len (length msg.new_token))
      (new invalid_arg "new resume token too long")
  ok (msg_session_resume_resp ∷ msg.status ∷ field16 msg.tunnel_id ++ field16 msg.new_token)

unfoldable pub encode_udp_datagram : UdpDatagramMessage → Result Text
encode_udp_datagram msg = do
  refuse (ltb max_label_len (length msg.label)) (new invalid_arg "label too long")
  refuse (ltb max_src_addr_len (length msg.src_addr)) (new invalid_arg "src_addr too long")
  refuse (ltb max_udp_payload_len (length msg.payload)) (new invalid_arg "UDP payload too long")
  ok (msg_udp_datagram ∷ field8 msg.label ++ (field8 msg.src_addr ++ field16 msg.payload))

unfoldable pub encode_stream_label : Text → Result Text
encode_stream_label label = do
  refuse (ltb max_label_len (length label)) (new invalid_arg "label too long")
  ok (msg_stream_label ∷ field8 label)
