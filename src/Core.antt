-- ===== src/Core.antt =====
-- `shph-core`: replay window, session ciphers, cell framing, cookies, profiles and metrics.
pub mod Window
pub mod Stealth
pub mod Framing
pub mod Cipher
pub mod Metrics
pub mod ConstantTime
pub mod Cookie
pub mod Hkdf
