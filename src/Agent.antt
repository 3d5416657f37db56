-- ===== src/Agent.antt =====
-- internal/agent/agent.go: the agent's list of gateways and its loop of connections.
pub mod Addresses
pub mod Reconnect
pub mod Targets
pub mod Session
