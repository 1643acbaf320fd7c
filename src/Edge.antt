-- ===== src/Edge.antt =====
-- `shph-edge`: capability tokens and their replay cache.
pub mod Capability
pub mod ReplayCache
pub mod Token
