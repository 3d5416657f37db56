-- ===== src/Tests.antt =====
-- Runs of the theorems at concrete inputs.
mod Leases
mod Frames
mod FramesV2
mod Routes
mod Stores
mod Gateways
mod Agents
mod Servers
mod Watches
