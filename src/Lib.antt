-- ===== src/Lib.antt =====
-- SHPH is a user-space tunnel: peers authenticate in a handshake, then exchange frames under
-- session keys over TCP, QUIC or a datagram carrier, with padding and cover traffic against
-- observation, and an edge service that admits clients by signed capabilities.
--
-- The development models the parts that keep the state behind those promises:
--
--  - Core.Window is `ReplayWindow` of shph-core/src/crypto.rs: the bitmap of 64-bit words, `shift_down` and
--    `check_and_insert`. Core.Window.History is its specification, a list of accepted counters.
--  - Core.Cipher is `SendCipher` and `ReceiveCipher` of the same file, the latter in strict mode or with a
--    window. A method on `&mut self` gives the new state beside its result.
--  - Core.ConstantTime is `constant_time_eq` there and `constant_time_diff` of shph-core/src/cookie.rs.
--  - Core.Hkdf is `hkdf_sha256` and `hkdf_sha256_into` of shph-core/src/crypto.rs.
--  - Core.Cookie is `StatelessCookieAuthority` of shph-core/src/cookie.rs.
--  - Core.Framing is shph-core/src/framing.rs, over the profiles of Core.Stealth, which is
--    shph-core/src/stealth.rs.
--  - Core.Metrics is shph-core/src/metrics.rs.
--  - Obfuscation is shph-obfuscation/src/lib.rs: padding tiers and the padded envelope.
--  - Transport.Cover is `CoverScheduler` of shph-transport/src/cover.rs; Transport.Pacing the deadlines and accounts
--    of shph-transport/src/pacing.rs.
--  - Transport.PhantomOne is shph-transport/src/phantom_one.rs: the configuration, with the encoder in its child
--    Encoder (sizes) and Envelope (bytes), the header read back in Wire, and the decoder with its replay
--    bitmap in Decoder.
--  - Transport.EnvelopePolicy is shph-transport/src/envelope_policy.rs: budgets, the offers of two peers in Offer,
--    their bytes in Wire, the agreement in Negotiate and what both hash of it in Acknowledgement. An offer carries a Phantom One configuration and a cover policy.
--  - Transport.Onion is shph-transport/src/onion.rs: limits, targets and paths, with the open request in Open and
--    the copy loops of a circuit in Quota, where each read, load, exchange and write is a step.
--  - Edge.Capability, Edge.Token and Edge.ReplayCache are shph-edge/src/capability.rs: claims and their wire form,
--    issuer and verifier, and the cache of consumed nonces. A verified token passes to the cache through
--    `verify_token`.
--  - Prelude holds lists, bytes, binary digits and results over the native numbers, and `ShphError` of
--    shph-core/src/error.rs.
--
-- Bytes and machine integers are natural numbers; wrap-around, saturation and casts are written out, and
-- the ranges that the types of the source give are hypotheses where a theorem needs them. A `Duration` or an
-- instant is its number of nanoseconds, a text its UTF-8 bytes where its bytes matter.
--
-- Parameters stand for the libraries: ChaCha20-Poly1305 (what was sealed opens again), Ed25519 (a signature checks
-- under its public key), base64 (decoding undoes encoding), HMAC (32 bytes), HKDF, SHA-256, and the random generators, which may
-- fail. Clocks are arguments.
--
-- Loops are structural, or run on fuel: the pruning of the replay cache has one round for each entry of
-- its heap, which is all it can pop; the rejection sampling of a padding jitter takes its fuel from the caller, and
-- one draw is enough for the two bounds in use, since they divide the range of the words.
--
-- Not modelled: the handshake, the key store, the transports' input and output, the SNAP planner, the
-- Shroud 2 and 3 transports, the tasks and TLS of the onion relay, TUN devices, the configuration and the command line; of the pacer the
-- asynchronous send. They are network, system or asynchronous code, or await a model of their own. Wiping of
-- memory is modelled where a caller can see it, in the buffer that a padding error leaves. What a relaxed
-- load of the quota gives is any earlier value of the counter.
pub mod Prelude
pub mod Core
pub mod Obfuscation
pub mod Transport
pub mod Edge
