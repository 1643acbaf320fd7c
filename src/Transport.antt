-- ===== src/Transport.antt =====
-- `shph-transport`: the cover-traffic budget and the datagram pacer.
pub mod Cover
pub mod Pacing
pub mod PhantomOne
pub mod EnvelopePolicy
pub mod Onion
