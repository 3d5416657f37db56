-- ===== src/Tests/FramesV2.antt =====
-- The theorems on AuthV2 frames at concrete messages.
use tunneledge.Common.{Text, ◌≡◌, refl, [], ◌∷◌, codes, arith, take, drop, take-append-drop}
use tunneledge.Errs.{GoError, ok, err}
use tunneledge.Transport.Messages.{AuthV2Message, AuthV2ResponseMessage}
use tunneledge.Transport.EncodeV2.{
  request_bytes, response_bytes, encode_entries, encode_entry, encode_auth_v2,
  encode_auth_v2_response,
}
use tunneledge.Transport.DecodeV2.{decode_auth_v2, decode_auth_v2_response}
use tunneledge.Transport.Reader.{closed}
use tunneledge.Transport.Reads.{Reads, reader}
use tunneledge.Transport.RoundTrip.V2Request.{
  RequestFits, decode_auth_v2-encode_auth_v2, entries_bytes,
}
use tunneledge.Transport.RoundTrip.V2Response.{
  ResponseFits, decode_auth_v2_response-encode_auth_v2_response,
}
use tunneledge.Transport.Truncation.{decode_auth_v2_truncated}

abbrev two_tunnels : AuthV2Message
two_tunnels = record {
  token = codes "secret";
  tunnels =
      record { label = codes "web"; local_addr = codes ":80"; tunnel_type = codes "http" }
      ∷ record { label = codes "db"; local_addr = codes ":5432"; tunnel_type = codes "tcp" }
      ∷ [];
  preferred_region = codes "eu";
}

two_tunnels-Fits : RequestFits two_tunnels
two_tunnels-Fits = record {
  token = omega arith;
  count = omega arith;
  region = omega arith;
  entries = (
    record { label = omega arith; local_addr = omega arith; tunnel_type = omega arith },
    (record { label = omega arith; local_addr = omega arith; tunnel_type = omega arith }, tt),
  );
}

abbrev request_frame : Text
request_frame = request_bytes two_tunnels (entries_bytes two_tunnels.tunnels)

request_frame-eq : encode_auth_v2 two_tunnels ≡ ok request_frame
unfolding encode_auth_v2 encode_entries encode_entry
request_frame-eq = refl

decode_auth_v2-encode_auth_v2_example :
    (frame : Text) × (encode_auth_v2 two_tunnels ≡ ok frame)
    × Reads decode_auth_v2 frame two_tunnels
decode_auth_v2-encode_auth_v2_example = decode_auth_v2-encode_auth_v2 two_tunnels two_tunnels-Fits

decode_auth_v2_truncated_example :
    (x : GoError) × (decode_auth_v2 (reader (take 9 request_frame) closed) ≡ err x)
decode_auth_v2_truncated_example =
    decode_auth_v2_truncated two_tunnels two_tunnels-Fits request_frame (take 9 request_frame)
      (drop 9 request_frame) closed request_frame-eq (take-append-drop 9 request_frame) (λ h. cc)

abbrev reply : AuthV2ResponseMessage
reply = record {
  status = 0;
  tunnel_id = codes "t-web";
  tunnels = record { label = codes "web"; hostname = codes "web.edge.dev" } ∷ [];
  resume_token = codes "again";
  assigned_region = codes "eu";
  suggested_gateways = codes "gw-2:443" ∷ [];
}

reply-Fits : ResponseFits reply
reply-Fits = record {
  tunnel_id = omega arith;
  count = omega arith;
  resume_token = omega arith;
  region = omega arith;
  gateways = omega arith;
  hosts = (record { label = omega arith; hostname = omega arith }, tt);
  addrs = (omega arith, tt);
}

reply_frame-eq : encode_auth_v2_response reply ≡ ok (response_bytes reply)
unfolding encode_auth_v2_response
reply_frame-eq = refl

decode_auth_v2_response-encode_auth_v2_response_example :
    (frame : Text) × (encode_auth_v2_response reply ≡ ok frame)
    × Reads decode_auth_v2_response frame reply
decode_auth_v2_response-encode_auth_v2_response_example =
    decode_auth_v2_response-encode_auth_v2_response reply reply-Fits
