-- ===== src/Downlink.antt =====
-- fta_agent/fta_agent/downlink: the registry of callable interfaces and the command executor.
pub mod Registry
pub mod Command
mod Examples
