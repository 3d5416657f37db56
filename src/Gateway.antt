-- ===== src/Gateway.antt =====
-- internal/gateway: routes, tunnels, the handshakes of agents, and public connections.
pub mod Router
pub mod Scorer
pub mod Distributed
pub mod Tunnels
pub mod Handshake
pub mod Lifecycle
pub mod Public
pub mod Connection
