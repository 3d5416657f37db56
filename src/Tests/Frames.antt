-- ===== src/Tests/Frames.antt =====
-- The round trips of the short frames at concrete messages.
use tunneledge.Common.{Text, ◌≡◌, codes, arith}
use tunneledge.Errs.{ok}
use tunneledge.Transport.Messages.{UdpDatagramMessage}
use tunneledge.Transport.Encode.{encode_udp_datagram}
use tunneledge.Transport.Datagram.{decode_udp_datagram, decode_udp_datagram-encode_udp_datagram}

abbrev datagram : UdpDatagramMessage
datagram = record { label = codes "dns"; src_addr = codes "10.0.0.1:53"; payload = codes "ping" }

decode_udp_datagram-encode_udp_datagram_example :
    (bytes : Text) × (encode_udp_datagram datagram ≡ ok bytes)
    × (decode_udp_datagram bytes ≡ ok datagram)
decode_udp_datagram-encode_udp_datagram_example =
    decode_udp_datagram-encode_udp_datagram datagram
      (record { label = omega arith; src_addr = omega arith; payload = omega arith })
