-- ===== src/Transport/DecodeV2.antt =====
-- internal/transport/transport.go: DecodeAuthV2 and DecodeAuthV2Response.
use tunneledge.Common.{Text, ℕ, zero, suc, not, List, [], ◌∷◌, ltb, ◌==◌}
use tunneledge.Errs.{coded, new, invalid_arg}
use tunneledge.Transport.Wire.{byte_at, uint16_at}
use tunneledge.Transport.Reader.{Decoder, ◌>>=◌, ◌>>◌, pure, reject, read_full, read_optional}
use tunneledge.Transport.Messages.{
  msg_auth_v2, msg_auth_resp_v2, max_token_len, max_tunnel_count, max_region_len, max_label_len,
  max_local_addr_len, max_tunnel_id_len, max_public_url_len, max_resume_token_len,
  max_suggested_gws, TunnelEntry, AuthV2Message, TunnelHostEntry, AuthV2ResponseMessage,
}

-- The body of the loop over the tunnels of DecodeAuthV2.
unfoldable pub decode_entry : Decoder TunnelEntry
decode_entry = do
  label_len_buf ← read_full "failed to read label len" 1
  let label_len = byte_at label_len_buf 0
  reject (ltb max_label_len label_len) (new invalid_arg "label too long")
  label ← read_full "failed to read label" label_len
  addr_len_buf ← read_full "failed to read local_addr len" 2
  let addr_len = uint16_at addr_len_buf 0
  reject (ltb max_local_addr_len addr_len) (new invalid_arg "local_addr too long")
  local_addr ← read_full "failed to read local_addr" addr_len
  type_len_buf ← read_full "failed to read tunnel_type len" 1
  let type_len = byte_at type_len_buf 0
  reject (ltb max_label_len type_len) (new invalid_arg "tunnel_type too long")
  tunnel_type ← read_optional "failed to read tunnel_type" type_len
  pure (record { label = label; local_addr = local_addr; tunnel_type = tunnel_type })

-- The loop, by the rounds left.
unfoldable pub decode_entries : ℕ → Decoder (List TunnelEntry)
decode_entries zero = pure []
decode_entries (suc n) = do t ← decode_entry; ts ← decode_entries n; pure (t ∷ ts)

unfoldable pub decode_auth_v2 : Decoder AuthV2Message
decode_auth_v2 = do
  header ← read_full "failed to read auth v2 header" 3
  reject (not (byte_at header 0 == msg_auth_v2))
      (coded invalid_arg "expected auth v2 type 0x06, got 0x%02x" ((byte_at header 0 ∷ []) ∷ []))
  let token_len = uint16_at header 1
  reject (ltb max_token_len token_len) (new invalid_arg "token too long")
  token ← read_full "failed to read auth v2 token" token_len
  count_buf ← read_full "failed to read tunnel count" 1
  let tunnel_count = byte_at count_buf 0
  reject (ltb max_tunnel_count tunnel_count) (new invalid_arg "too many tunnels")
  tunnels ← decode_entries tunnel_count
  region_len_buf ← read_full "failed to read region len" 1
  let region_len = byte_at region_len_buf 0
  reject (ltb max_region_len region_len) (new invalid_arg "region too long")
  preferred_region ← read_optional "failed to read region" region_len
  pure (record { token = token; tunnels = tunnels; preferred_region = preferred_region })

-- The body of the loop over the tunnels of DecodeAuthV2Response, which tests no label length.
unfoldable pub decode_host : Decoder TunnelHostEntry
decode_host = do
  label_len_buf ← read_full "failed to read response label len" 1
  label ← read_full "failed to read response label" (byte_at label_len_buf 0)
  host_len_buf ← read_full "failed to read response hostname len" 2
  let host_len = uint16_at host_len_buf 0
  reject (ltb max_public_url_len host_len) (new invalid_arg "hostname too long")
  hostname ← read_full "failed to read response hostname" host_len
  pure (record { label = label; hostname = hostname })

unfoldable pub decode_hosts : ℕ → Decoder (List TunnelHostEntry)
decode_hosts zero = pure []
decode_hosts (suc n) = do t ← decode_host; ts ← decode_hosts n; pure (t ∷ ts)

-- The body of the loop over the suggested gateways.
unfoldable pub decode_gateway : Decoder Text
decode_gateway = do
  addr_len_buf ← read_full "failed to read suggested gw addr len" 2
  let addr_len = uint16_at addr_len_buf 0
  reject (ltb max_public_url_len addr_len) (new invalid_arg "suggested gateway addr too long")
  read_full "failed to read suggested gw addr" addr_len

unfoldable pub decode_gateways : ℕ → Decoder (List Text)
decode_gateways zero = pure []
decode_gateways (suc n) = do gw ← decode_gateway; gws ← decode_gateways n; pure (gw ∷ gws)

-- DecodeAuthV2Response from the resume token on.
unfoldable pub decode_response_tail : AuthV2ResponseMessage → Decoder AuthV2ResponseMessage
decode_response_tail msg = do
  resume_len_buf ← read_full "failed to read resume_token len" 2
  let resume_len = uint16_at resume_len_buf 0
  reject (ltb max_resume_token_len resume_len) (new invalid_arg "resume_token too long")
  resume_token ← read_optional "failed to read resume_token" resume_len
  region_len_buf ← read_full "failed to read assigned_region len" 1
  let region_len = byte_at region_len_buf 0
  reject (ltb max_region_len region_len) (new invalid_arg "assigned_region too long")
  assigned_region ← read_optional "failed to read assigned_region" region_len
  gw_count_buf ← read_full "failed to read suggested gateway count" 1
  let gw_count = byte_at gw_count_buf 0
  reject (ltb max_suggested_gws gw_count) (new invalid_arg "too many suggested gateways")
  suggested_gateways ← decode_gateways gw_count
  pure (record msg {
    resume_token = resume_token;
    assigned_region = assigned_region;
    suggested_gateways = suggested_gateways;
  })

unfoldable pub decode_auth_v2_response : Decoder AuthV2ResponseMessage
decode_auth_v2_response = do
  header ← read_full "failed to read auth v2 response header" 4
  reject (not (byte_at header 0 == msg_auth_resp_v2)) (
      coded invalid_arg "expected auth v2 response type 0x07, got 0x%02x"
        ((byte_at header 0 ∷ []) ∷ []))
  let status = byte_at header 1
  let id_len = uint16_at header 2
  reject (ltb max_tunnel_id_len id_len) (new invalid_arg "tunnel_id too long")
  tunnel_id ← read_optional "failed to read auth v2 response tunnel_id" id_len
  count_buf ← read_full "failed to read tunnel count in response" 1
  let tunnel_count = byte_at count_buf 0
  reject (ltb max_tunnel_count tunnel_count) (new invalid_arg "too many tunnels in response")
  tunnels ← decode_hosts tunnel_count
  decode_response_tail (record {
    status = status;
    tunnel_id = tunnel_id;
    tunnels = tunnels;
    resume_token = [];
    assigned_region = [];
    suggested_gateways = [];
  })
