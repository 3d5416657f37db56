-- ===== src/Transport/Truncation.antt =====
-- Frames that are cut short.
use tunneledge.Common.{Text, ℕ, zero, suc, ◌≡◌, ◌≢◌, [], ◌∷◌, ◌++◌, ◌∙◌, sym}
use tunneledge.Errs.{GoError, ok, err}
use tunneledge.Transport.Messages.{AuthV2Message, AuthV2ResponseMessage}
use tunneledge.Transport.Reader.{Ending}
use tunneledge.Transport.EncodeV2.{encode_auth_v2, encode_auth_v2_response}
use tunneledge.Transport.DecodeV2.{
  decode_entry, decode_entries, decode_auth_v2, decode_host, decode_hosts, decode_gateway,
  decode_gateways, decode_response_tail, decode_auth_v2_response,
}
use tunneledge.Transport.Reads.{reader}
use tunneledge.Transport.Extends.{
  Extends, Extends-bind, Extends-pure, extends_rules, prefix_refused,
}
use tunneledge.Transport.RoundTrip.V2Request.{RequestFits, decode_auth_v2-encode_auth_v2}
use tunneledge.Transport.RoundTrip.V2Response.{
  ResponseFits, decode_auth_v2_response-encode_auth_v2_response,
}

decode_entry-Extends : Extends decode_entry
unfolding decode_entry
decode_entry-Extends = search extends_rules depth 20

decode_entries-Extends : (n : ℕ) → Extends (decode_entries n)
unfolding decode_entries
decode_entries-Extends zero = search extends_rules
decode_entries-Extends (suc n) =
    Extends-bind decode_entry-Extends
      λ t. Extends-bind (decode_entries-Extends n) λ ts. Extends-pure (t ∷ ts)

decode_auth_v2-Extends : Extends decode_auth_v2
unfolding decode_auth_v2
decode_auth_v2-Extends = search (extends_rules, decode_entries-Extends) depth 25

decode_host-Extends : Extends decode_host
unfolding decode_host
decode_host-Extends = search extends_rules depth 20

decode_hosts-Extends : (n : ℕ) → Extends (decode_hosts n)
unfolding decode_hosts
decode_hosts-Extends zero = search extends_rules
decode_hosts-Extends (suc n) =
    Extends-bind decode_host-Extends
      λ t. Extends-bind (decode_hosts-Extends n) λ ts. Extends-pure (t ∷ ts)

decode_gateway-Extends : Extends decode_gateway
unfolding decode_gateway
decode_gateway-Extends = search extends_rules depth 20

decode_gateways-Extends : (n : ℕ) → Extends (decode_gateways n)
unfolding decode_gateways
decode_gateways-Extends zero = search extends_rules
decode_gateways-Extends (suc n) =
    Extends-bind decode_gateway-Extends
      λ gw. Extends-bind (decode_gateways-Extends n) λ gws. Extends-pure (gw ∷ gws)

decode_response_tail-Extends : (msg : AuthV2ResponseMessage) → Extends (decode_response_tail msg)
unfolding decode_response_tail
decode_response_tail-Extends msg = search (extends_rules, decode_gateways-Extends) depth 25

decode_auth_v2_response-Extends : Extends decode_auth_v2_response
unfolding decode_auth_v2_response
decode_auth_v2_response-Extends =
    search (extends_rules, decode_hosts-Extends, decode_response_tail-Extends) depth 25

same_frame : {frame frame' : Text} → ok frame ≡ ok frame' → frame ≡ frame'
same_frame h = cc

-- A request frame that is cut short anywhere is refused with an error.
pub decode_auth_v2_truncated :
    (msg : AuthV2Message)
    → RequestFits msg
    → (frame p s : Text) (e : Ending) → encode_auth_v2 msg ≡ ok frame
    → p ++ s ≡ frame
    → s ≢ []
    → (x : GoError) × (decode_auth_v2 (reader p e) ≡ err x)
decode_auth_v2_truncated msg fits frame p s e enc cut rest =
    let (full, enc', reads) = decode_auth_v2-encode_auth_v2 msg fits in
    prefix_refused decode_auth_v2 msg full p s e decode_auth_v2-Extends reads
      (cut ∙ same_frame (sym enc ∙ enc')) rest

-- A response frame that is cut short anywhere is refused with an error.
pub decode_auth_v2_response_truncated :
    (msg : AuthV2ResponseMessage)
    → ResponseFits msg
    → (frame p s : Text) (e : Ending) → encode_auth_v2_response msg ≡ ok frame
    → p ++ s ≡ frame
    → s ≢ []
    → (x : GoError) × (decode_auth_v2_response (reader p e) ≡ err x)
decode_auth_v2_response_truncated msg fits frame p s e enc cut rest =
    let (full, enc', reads) = decode_auth_v2_response-encode_auth_v2_response msg fits in
    prefix_refused decode_auth_v2_response msg full p s e decode_auth_v2_response-Extends reads
      (cut ∙ same_frame (sym enc ∙ enc')) rest
