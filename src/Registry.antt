-- ===== src/Registry.antt =====
-- internal/registry: leases, relays and their events.
pub mod Leases
pub mod Coordinator
pub mod Wire
pub mod Server
pub mod Etcd
