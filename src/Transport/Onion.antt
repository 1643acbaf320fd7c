-- ===== src/Transport/Onion.antt =====
-- shph-transport/src/onion.rs: the bounds of a relay, its list of targets and the path of a client.
-- A `HashSet` is the list of its members.
pub mod Open
pub mod Quota
pub mod Bounds
mod Tests
use shph.Prelude.{
  ℕ, ◌+◌, ◌*◌, Bool, true, false, not, ◌&&◌, ◌||◌, List, [], ◌∷◌, length, any, bytes_eq, ltb, leb,
  ◌==◌, if◌then◌else◌, Result, ok, err, ◌>>=◌, ◌>>◌, reject_if, ShphError, config,
  resource_exhausted,
}
use shph.Core.Cookie.{IpAddr, v4, v6, SocketAddr, socket_v4, socket_v6, ip, port}

abbrev pub max_relay_hops : ℕ
max_relay_hops = 3

abbrev pub max_targets : ℕ
max_targets = 64

abbrev pub max_circuits : ℕ
max_circuits = 512

abbrev pub max_circuit_bytes : ℕ
max_circuit_bytes = 64 * 1024 * 1024

-- Milliseconds as a `Duration` in nanoseconds.
abbrev pub millis : ℕ → ℕ
millis n = n * 1000000

-- `0.0.0.0` and `::`.
unfoldable pub is_unspecified : IpAddr → Bool
is_unspecified (v4 octets) = not (any (λ byte. not (byte == 0)) octets)
is_unspecified (v6 octets) = not (any (λ byte. not (byte == 0)) octets)

unfoldable pub addr_eq : SocketAddr → SocketAddr → Bool
addr_eq (socket_v4 octets n) (socket_v4 octets' n') = bytes_eq octets octets' && n == n'
addr_eq (socket_v6 octets n flow scope) (socket_v6 octets' n' flow' scope') =
    bytes_eq octets octets' && n == n' && flow == flow' && scope == scope'
addr_eq (socket_v4 octets n) (socket_v6 octets' n' flow' scope') = false
addr_eq (socket_v6 octets n flow scope) (socket_v4 octets' n') = false

abbrev pub contains : List SocketAddr → SocketAddr → Bool
contains set addr = any (addr_eq addr) set

pub record RelayLimits : Type 0 where
  pub max_circuits : ℕ
  pub setup_timeout : ℕ
  pub max_lifetime : ℕ
  pub max_bytes_per_circuit : ℕ

abbrev pub default_limits : RelayLimits
default_limits = record {
  max_circuits = 32;
  setup_timeout = millis 10000;
  max_lifetime = millis 300000;
  max_bytes_per_circuit = max_circuit_bytes;
}

unfoldable pub validate : RelayLimits → Result ShphError RelayLimits
validate l = do
  reject_if
      (l.max_circuits == 0
        || ltb max_circuits l.max_circuits
        || ltb l.setup_timeout (millis 100)
        || ltb (millis 30000) l.setup_timeout
        || ltb l.max_lifetime (millis 1000)
        || ltb (millis 3600000) l.max_lifetime
        || l.max_bytes_per_circuit == 0
        || ltb (1024 * 1024 * 1024) l.max_bytes_per_circuit)
      (config "onion relay limits exceed supported bounds")
  ok l

pub record RelayServerConfig : Type 0 where
  pub allowed_targets : List SocketAddr
  pub token : List ℕ
  pub limits : RelayLimits

abbrev pub is_literal : SocketAddr → Bool
is_literal target = not (port target == 0 || is_unspecified (ip target))

-- The loop over the targets; `set` holds those seen so far.
unfoldable pub target_set : List SocketAddr → List SocketAddr → Result ShphError (List SocketAddr)
target_set set [] = ok set
target_set set (target ∷ targets) =
    let known = target_set set targets in
    let added = target_set (target ∷ set) targets in
    reject_if (not (is_literal target))
      (config "onion relay targets must use specific numeric addresses")
    >> (reject_if (not (contains set target) && leb max_targets (length set))
          (resource_exhausted "onion relay target allowlist exceeds 64 entries")
        >> (if contains set target then known else added))

unfoldable pub new_server :
    List ℕ → List SocketAddr → RelayLimits → Result ShphError RelayServerConfig
new_server token targets limits = do
  set ← target_set [] targets
  reject_if (length set == 0) (config "onion relay requires at least one allowed target")
  checked ← validate limits
  ok (record { allowed_targets = set; token = token; limits = checked })

-- The loop over the endpoints of the relays.
unfoldable pub distinct_endpoints :
    List SocketAddr → List SocketAddr → Result ShphError (List SocketAddr)
distinct_endpoints set [] = ok set
distinct_endpoints set (endpoint ∷ endpoints) =
    let rest = distinct_endpoints (endpoint ∷ set) endpoints in
    reject_if (contains set endpoint) (config "onion path contains a repeated relay endpoint")
    >> rest

-- `OnionPath::new`, on the endpoints of its relays.
unfoldable pub new_path : List SocketAddr → SocketAddr → Result ShphError (List SocketAddr)
new_path endpoints destination = do
  reject_if
      (ltb (length endpoints) 2
        || ltb max_relay_hops (length endpoints)
        || not (is_literal destination))
      (config "onion path requires two or three pinned relays and a literal destination")
  set ← distinct_endpoints [] endpoints
  reject_if (contains set destination)
      (config "onion destination must differ from every relay endpoint")
  ok endpoints
