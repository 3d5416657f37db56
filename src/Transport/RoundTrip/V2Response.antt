-- ===== src/Transport/RoundTrip/V2Response.antt =====
-- AuthV2Response frames: what the decoder makes of an encoded response.
use tunneledge.Common.{
  Text, ◌≤◌, ◌<◌, ◌^◌, ◌≡◌, refl, subst, List, [], ◌∷◌, ◌++◌, arith, length, All, le→ltb,
}
use tunneledge.Errs.{ok}
use tunneledge.Transport.Wire.{byte, uint16, put_uint16, uint16_exact, field8, field16}
use tunneledge.Transport.Messages.{
  msg_auth_resp_v2, max_tunnel_count, max_region_len, max_tunnel_id_len, max_public_url_len,
  max_resume_token_len, max_suggested_gws, TunnelHostEntry, AuthV2ResponseMessage,
}
use tunneledge.Transport.EncodeV2.{encode_hosts, encode_gateways, encode_auth_v2_response}
use tunneledge.Transport.DecodeV2.{
  decode_host, decode_hosts, decode_gateway, decode_gateways, decode_response_tail,
  decode_auth_v2_response,
}
use tunneledge.Transport.Reads.{
  Reads, Reads-pure, Reads-bind, Reads-map, Reads-full, Reads-optional, Reads-reject,
}

-- The encoder does not test these two: a longer label or host name gives a frame that is not read
-- back.
pub record HostFits (t : TunnelHostEntry) : Type 0 where
  pub label : length t.label < 2 ^ 8
  pub hostname : length t.hostname ≤ max_public_url_len

-- The limits that EncodeAuthV2Response tests, and those that it leaves to its caller: the host
-- entries' and the gateway addresses'.
pub record ResponseFits (msg : AuthV2ResponseMessage) : Type 0 where
  pub tunnel_id : length msg.tunnel_id ≤ max_tunnel_id_len
  pub count : length msg.tunnels ≤ max_tunnel_count
  pub resume_token : length msg.resume_token ≤ max_resume_token_len
  pub region : length msg.assigned_region ≤ max_region_len
  pub gateways : length msg.suggested_gateways ≤ max_suggested_gws
  pub hosts : All HostFits msg.tunnels
  pub addrs : All (λ gw. length gw ≤ max_public_url_len) msg.suggested_gateways

decode_hosts-Reads :
    (ts : List TunnelHostEntry)
    → All HostFits ts
    → Reads (decode_hosts (length ts)) (encode_hosts ts) ts
unfolding decode_hosts encode_hosts decode_host
decode_hosts-Reads [] h = Reads-pure []
decode_hosts-Reads (t ∷ ts) h =
    Reads-bind _ _ (field8 label ++ field16 host) (encode_hosts ts) t
      (Reads-bind _ _ (byte (length label) ∷ []) (label ++ field16 host) _ (Reads-full _ 1 _ refl) (
        Reads-bind _ _ label (field16 host) label (Reads-full _ _ label (omega arith)) (
          Reads-bind _ _ (put_uint16 (uint16 (length host))) host _ (Reads-full _ 2 _ refl) (
            Reads-reject _ _ _ host (ground arith)
              (Reads-map _ _ host host (Reads-full _ _ host (uint16_exact _ (omega arith))))))))
      (Reads-map _ _ (encode_hosts ts) ts (decode_hosts-Reads ts h.1))
  where
    open t use {label, hostname as host}

decode_gateways-Reads :
    (gws : List Text)
    → All (λ gw. length gw ≤ max_public_url_len) gws
    → Reads (decode_gateways (length gws)) (encode_gateways gws) gws
unfolding decode_gateways encode_gateways decode_gateway
decode_gateways-Reads [] h = Reads-pure []
decode_gateways-Reads (gw ∷ gws) h =
    Reads-bind _ _ (field16 gw) (encode_gateways gws) gw
      (Reads-bind _ _ (put_uint16 (uint16 (length gw))) gw _ (Reads-full _ 2 _ refl)
        (Reads-reject _ _ _ gw (ground arith) (Reads-full _ _ gw (uint16_exact _ (omega arith)))))
      (Reads-map _ _ (encode_gateways gws) gws (decode_gateways-Reads gws h.1))

module _ (msg : AuthV2ResponseMessage) (fits : ResponseFits msg) where
  open msg use {
    status, tunnel_id as id, tunnels as ts, resume_token as token, assigned_region as region,
    suggested_gateways as gws,
  }

  -- The frame from the gateway count, the region, the resume token, the hosts and the tunnel count
  -- on.
  abbrev gateways_part : Text
  gateways_part = byte (length gws) ∷ encode_gateways gws

  abbrev region_part : Text
  region_part = field8 region ++ gateways_part

  abbrev token_part : Text
  token_part = field16 token ++ region_part

  abbrev hosts_part : Text
  hosts_part = encode_hosts ts ++ token_part

  abbrev count_part : Text
  count_part = byte (length ts) ∷ hosts_part

  -- What the decoder holds before the tail.
  abbrev head : AuthV2ResponseMessage
  head = record msg { resume_token = []; assigned_region = []; suggested_gateways = [] }

  decode_response_tail-Reads : Reads (decode_response_tail head) token_part msg
  unfolding decode_response_tail
  decode_response_tail-Reads =
      Reads-bind _ _ (put_uint16 (uint16 (length token))) (token ++ region_part) _
        (Reads-full _ 2 _ refl)
        (Reads-reject _ _ _ (token ++ region_part) (ground arith) (
          Reads-bind _ _ token region_part token
            (Reads-optional _ _ token (uint16_exact _ (omega arith)))
            (Reads-bind _ _ (byte (length region) ∷ []) (region ++ gateways_part) _
              (Reads-full _ 1 _ refl)
              (Reads-reject _ _ _ (region ++ gateways_part) (ground arith) (
                Reads-bind _ _ region gateways_part region (Reads-optional _ _ region (omega arith))
                  (Reads-bind _ _ (byte (length gws) ∷ []) (encode_gateways gws) _
                    (Reads-full _ 1 _ refl)
                    (Reads-reject _ _ _ (encode_gateways gws) (ground arith) (
                      Reads-map _ _ (encode_gateways gws) gws (
                        subst (λ n. Reads (decode_gateways n) (encode_gateways gws) gws)
                          (omega arith) (decode_gateways-Reads gws fits.addrs))))))))))

  decode_auth_v2_response-Reads :
      Reads decode_auth_v2_response (msg_auth_resp_v2 ∷ status ∷ field16 id ++ count_part) msg
  unfolding decode_auth_v2_response
  decode_auth_v2_response-Reads =
      Reads-bind _ _ (msg_auth_resp_v2 ∷ status ∷ put_uint16 (uint16 (length id)))
        (id ++ count_part) _ (Reads-full _ 4 _ refl)
        (Reads-reject _ _ _ (id ++ count_part) refl (
          Reads-reject _ _ _ (id ++ count_part) (ground arith) (
            Reads-bind _ _ id count_part id (Reads-optional _ _ id (uint16_exact _ (omega arith))) (
              Reads-bind _ _ (byte (length ts) ∷ []) hosts_part _ (Reads-full _ 1 _ refl) (
                Reads-reject _ _ _ hosts_part (ground arith) (
                  Reads-bind _ _ (encode_hosts ts) token_part ts
                    (subst (λ n. Reads (decode_hosts n) (encode_hosts ts) ts) (omega arith)
                      (decode_hosts-Reads ts fits.hosts))
                    decode_response_tail-Reads))))))

  -- A response within the encoder's limits, whose host entries and gateway addresses keep the
  -- decoder's, is encoded, and decoding the frame returns the response and leaves what follows it.
  pub decode_auth_v2_response-encode_auth_v2_response :
      (frame : Text) × (encode_auth_v2_response msg ≡ ok frame)
      × Reads decode_auth_v2_response frame msg
  unfolding encode_auth_v2_response
  decode_auth_v2_response-encode_auth_v2_response = (
    _,
    rw (le→ltb max_tunnel_id_len (length id) fits.tunnel_id) (
        rw (le→ltb max_tunnel_count (length ts) fits.count) (
          rw (le→ltb max_resume_token_len (length token) fits.resume_token) (
            rw (le→ltb max_region_len (length region) fits.region)
              (rw (le→ltb max_suggested_gws (length gws) fits.gateways))))),
    decode_auth_v2_response-Reads,
  )
