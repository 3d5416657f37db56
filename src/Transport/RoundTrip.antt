-- ===== src/Transport/RoundTrip.antt =====
-- Decoding after encoding, for the messages of a reader other than V2. `Fits` predicates say which
-- messages keep the protocol's limits.
pub mod Auth
pub mod Session
pub mod V2Request
pub mod V2Response
