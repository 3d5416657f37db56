-- ===== src/Transport/EncodeV2.antt =====
-- internal/transport/transport.go: EncodeAuthV2 and EncodeAuthV2Response. The buffer that the source
-- sizes beforehand and fills from the left is written as the concatenation of what fills it; the
-- sizes are `auth_v2_size` and `auth_v2_response_size`.
use tunneledge.Common.{Text, ℕ, ◌+◌, List, [], ◌∷◌, ◌++◌, length, ltb}
use tunneledge.Errs.{Result, ok, new, coded, refuse, invalid_arg, ◌>>◌, ◌>>=◌}
use tunneledge.Transport.Wire.{byte, field8, field16}
use tunneledge.Transport.Messages.{
  msg_auth_v2, msg_auth_resp_v2, max_token_len, max_tunnel_count, max_region_len, max_label_len,
  max_local_addr_len, max_tunnel_id_len, max_resume_token_len, max_suggested_gws, TunnelEntry,
  AuthV2Message, TunnelHostEntry, AuthV2ResponseMessage,
}

abbrev pub entry_bytes : TunnelEntry → Text
entry_bytes t = field8 t.label ++ (field16 t.local_addr ++ field8 t.tunnel_type)

-- The body of the loop over msg.Tunnels.
unfoldable pub encode_entry : TunnelEntry → Result Text
encode_entry t = do
  refuse (ltb max_label_len (length t.label))
      (coded invalid_arg "label too long: %s" (t.label ∷ []))
  refuse (ltb max_local_addr_len (length t.local_addr))
      (coded invalid_arg "local_addr too long: %s" (t.local_addr ∷ []))
  refuse (ltb max_label_len (length t.tunnel_type)) (new invalid_arg "tunnel_type too long")
  ok (entry_bytes t)

unfoldable pub encode_entries : List TunnelEntry → Result Text
encode_entries [] = ok []
encode_entries (t ∷ ts) = do head ← encode_entry t; rest ← encode_entries ts; ok (head ++ rest)

-- The frame around the encoded entries.
abbrev pub request_bytes : AuthV2Message → Text → Text
request_bytes msg entries =
    msg_auth_v2 ∷ field16 msg.token
    ++ (byte (length msg.tunnels) ∷ entries ++ field8 msg.preferred_region)

unfoldable pub encode_auth_v2 : AuthV2Message → Result Text
encode_auth_v2 msg = do
  refuse (ltb max_token_len (length msg.token)) (new invalid_arg "token too long")
  refuse (ltb max_tunnel_count (length msg.tunnels)) (new invalid_arg "too many tunnels")
  refuse (ltb max_region_len (length msg.preferred_region)) (new invalid_arg "region too long")
  entries ← encode_entries msg.tunnels
  ok (request_bytes msg entries)

-- The first loop of EncodeAuthV2, which adds up the entries' sizes.
unfoldable pub entries_size : ℕ → List TunnelEntry → ℕ
entries_size size [] = size
entries_size size (t ∷ ts) =
    entries_size (size + (1 + length t.label + 2 + length t.local_addr + 1 + length t.tunnel_type))
      ts

-- The length of the buffer that EncodeAuthV2 makes.
unfoldable pub auth_v2_size : AuthV2Message → ℕ
auth_v2_size msg =
    entries_size (1 + 2 + length msg.token + 1 + 1 + length msg.preferred_region) msg.tunnels

abbrev pub host_bytes : TunnelHostEntry → Text
host_bytes t = field8 t.label ++ field16 t.hostname

-- The loop over msg.Tunnels of EncodeAuthV2Response, which tests no length.
unfoldable pub encode_hosts : List TunnelHostEntry → Text
encode_hosts [] = []
encode_hosts (t ∷ ts) = host_bytes t ++ encode_hosts ts

-- The loop over msg.SuggestedGateways, which tests no length.
unfoldable pub encode_gateways : List Text → Text
encode_gateways [] = []
encode_gateways (gw ∷ gws) = field16 gw ++ encode_gateways gws

-- The frame from the region on, and from the resume token on.
abbrev pub region_bytes : AuthV2ResponseMessage → Text
region_bytes msg =
    field8 msg.assigned_region
    ++ (byte (length msg.suggested_gateways) ∷ encode_gateways msg.suggested_gateways)

abbrev pub tail_bytes : AuthV2ResponseMessage → Text
tail_bytes msg = field16 msg.resume_token ++ region_bytes msg

abbrev pub response_bytes : AuthV2ResponseMessage → Text
response_bytes msg =
    msg_auth_resp_v2 ∷ msg.status ∷ field16 msg.tunnel_id
    ++ (byte (length msg.tunnels) ∷ encode_hosts msg.tunnels ++ tail_bytes msg)

unfoldable pub encode_auth_v2_response : AuthV2ResponseMessage → Result Text
encode_auth_v2_response msg = do
  refuse (ltb max_tunnel_id_len (length msg.tunnel_id)) (new invalid_arg "tunnel_id too long")
  refuse (ltb max_tunnel_count (length msg.tunnels))
      (new invalid_arg "too many tunnels in response")
  refuse (ltb max_resume_token_len (length msg.resume_token))
      (new invalid_arg "resume_token too long")
  refuse (ltb max_region_len (length msg.assigned_region))
      (new invalid_arg "assigned_region too long")
  refuse (ltb max_suggested_gws (length msg.suggested_gateways))
      (new invalid_arg "too many suggested gateways")
  ok (response_bytes msg)

unfoldable pub hosts_size : ℕ → List TunnelHostEntry → ℕ
hosts_size size [] = size
hosts_size size (t ∷ ts) = hosts_size (size + (1 + length t.label + 2 + length t.hostname)) ts

unfoldable pub gateways_size : ℕ → List Text → ℕ
gateways_size size [] = size
gateways_size size (gw ∷ gws) = gateways_size (size + (2 + length gw)) gws

-- The length of the buffer that EncodeAuthV2Response makes.
unfoldable pub auth_v2_response_size : AuthV2ResponseMessage → ℕ
auth_v2_response_size msg =
    gateways_size
      (hosts_size (1 + 1 + 2 + length msg.tunnel_id + 1) msg.tunnels
        + (2 + length msg.resume_token + 1 + length msg.assigned_region + 1))
      msg.suggested_gateways
