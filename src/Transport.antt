-- ===== src/Transport.antt =====
-- internal/transport/transport.go: the frames that agents and gateways exchange.
pub mod Messages
pub mod Wire
pub mod Encode
pub mod EncodeV2
pub mod Reader
pub mod Decode
pub mod DecodeV2
pub mod Reads
pub mod RoundTrip
pub mod Sizes
pub mod Datagram
pub mod Extends
pub mod Truncation
