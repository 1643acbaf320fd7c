-- ===== src/Transport/Onion/Open.antt =====
-- The request that opens a circuit: `send_open_request` and `parse_open_request`.
use shph.Prelude.{
  ℕ, ◌<◌, ◌≡◌, refl, ap, ◌∙◌, true, false, not, ◌&&◌, ◌||◌, Option, none, some, List, [], ◌∷◌, ◌++◌,
  length, get_or, take, drop, replicate, any, bytes_eq, bytes_eq_refl, ◌==◌, if◌then◌else◌, arith,
  drop-append, take-append, take_all, drop-drop, length-append,
}
use shph.Prelude.Bytes.{be_bytes, be_value, be_value-be_bytes, length-be_bytes}
use shph.Core.ConstantTime.{constant_time_eq, constant_time_decides}
use shph.Core.Cookie.{IpAddr, v4, v6, SocketAddr, socket_v4, socket_v6, ip, port}
use shph.Transport.Onion.{is_unspecified, is_literal, RelayServerConfig, contains}

abbrev pub open_magic : List ℕ
open_magic = b'S' ∷ b'H' ∷ b'O' ∷ b'N' ∷ b'I' ∷ b'O' ∷ b'N' ∷ b'1' ∷ []

-- The family and the sixteen bytes of the address; the bytes behind an IPv4 address stay zero.
unfoldable pub ip_bytes : IpAddr → List ℕ
ip_bytes (v4 octets) = 4 ∷ (octets ++ replicate 12 0)
ip_bytes (v6 octets) = 6 ∷ octets

unfoldable pub open_request : SocketAddr → List ℕ → List ℕ
open_request target token =
    open_magic ++ (token ++ (ip_bytes (ip target) ++ be_bytes 2 (port target)))

unfoldable pub ip_from : ℕ → List ℕ → Option IpAddr
ip_from family address =
    if family == 4 && not (any (λ byte. not (byte == 0)) (drop 4 address))
    then some (v4 (take 4 address))
    else if family == 6
    then some (v6 (take 16 address))
    else none

-- `SocketAddr::new`: no flow information and no scope.
abbrev pub from_parts : IpAddr → ℕ → SocketAddr
from_parts (v4 octets) n = socket_v4 octets n
from_parts (v6 octets) n = socket_v6 octets n 0 0

unfoldable pub addressed : Option IpAddr → ℕ → Option SocketAddr
addressed none n = none
addressed (some address) n = if is_unspecified address then none else some (from_parts address n)

-- The 59 bytes of a request.
unfoldable pub parse_open_request : List ℕ → List ℕ → Option SocketAddr
parse_open_request request expected_token =
    let n = be_value (take 2 (drop 57 request)) in
    if not (bytes_eq (take 8 request) open_magic)
      || not (constant_time_eq (take 32 (drop 8 request)) expected_token)
    then none
    else if n == 0
    then none
    else addressed (ip_from (get_or (drop 40 request) 0 0) (take 16 (drop 41 request))) n

abbrev pub allowed : RelayServerConfig → Option SocketAddr → Option SocketAddr
allowed c none = none
allowed c (some target) = if contains c.allowed_targets target then some target else none

-- The target that a relay connects to.
unfoldable pub admitted : RelayServerConfig → List ℕ → Option SocketAddr
admitted c request = allowed c (parse_open_request request c.token)

-- The octets of an address.
abbrev pub IsAddress : IpAddr → Type 0
IsAddress (v4 octets) = length octets ≡ 4
IsAddress (v6 octets) = length octets ≡ 16

abbrev family : IpAddr → ℕ
family (v4 octets) = 4
family (v6 octets) = 6

-- The address as sixteen bytes.
abbrev padded : IpAddr → List ℕ
padded (v4 octets) = octets ++ replicate 12 0
padded (v6 octets) = octets

length-padded : (ip : IpAddr) → IsAddress ip → length (padded ip) ≡ 16
length-padded (v4 octets) h = omega (arith, length-append octets (replicate 12 0), h)
length-padded (v6 octets) h = h

ip_bytes_lem : (ip : IpAddr) → ip_bytes ip ≡ family ip ∷ padded ip
unfolding ip_bytes
ip_bytes_lem (v4 octets) = refl
ip_bytes_lem (v6 octets) = refl

ip_from-padded : (ip : IpAddr) → IsAddress ip → ip_from (family ip) (padded ip) ≡ some ip
unfolding ip_from
ip_from-padded (v4 octets) h =
    let back : drop 4 (octets ++ replicate 12 0) ≡ replicate 12 0 =
      drop-append 4 octets (replicate 12 0) h in
    let front : take 4 (octets ++ replicate 12 0) ≡ octets =
      take-append 4 octets (replicate 12 0) h in
    simp (back, front)
ip_from-padded (v6 octets) h =
    let whole : take 16 octets ≡ octets = take_all 16 octets (omega arith) in simp whole

module _ (target : SocketAddr) (token : List ℕ) (sized : length token ≡ 32)
    (address : IsAddress (ip target)) (narrow : port target < 65536) where
  behind : List ℕ
  behind = padded (ip target) ++ be_bytes 2 (port target)

  request_behind : drop 40 (open_request target token) ≡ family (ip target) ∷ behind
  unfolding open_request behind
  request_behind =
      let tail = ip_bytes (ip target) ++ be_bytes 2 (port target) in
      drop-drop 8 32 40 (open_request target token) refl
      ∙ drop-append 32 token tail sized
      ∙ ap (λ x. x ++ be_bytes 2 (port target)) (ip_bytes_lem (ip target))

  request_token : take 32 (drop 8 (open_request target token)) ≡ token
  unfolding open_request
  request_token = take-append 32 token (ip_bytes (ip target) ++ be_bytes 2 (port target)) sized

  request_address : take 16 (drop 41 (open_request target token)) ≡ padded (ip target)
  unfolding behind
  request_address =
      ap (take 16) (drop-drop 40 1 41 (open_request target token) refl ∙ ap (drop 1) request_behind)
      ∙ take-append 16 (padded (ip target)) (be_bytes 2 (port target))
          (length-padded (ip target) address)

  request_port : be_value (take 2 (drop 57 (open_request target token))) ≡ port target
  unfolding behind
  request_port =
      ap (λ x. be_value (take 2 x))
        (drop-drop 40 17 57 (open_request target token) refl
          ∙ ap (drop 17) request_behind
          ∙ drop-append 16 (padded (ip target)) (be_bytes 2 (port target))
              (length-padded (ip target) address))
      ∙ ap be_value
          (take_all 2 (be_bytes 2 (port target)) (omega (arith, length-be_bytes 2 (port target))))
      ∙ be_value-be_bytes 2 (port target) (omega arith)

  marked : take 8 (open_request target token) ≡ open_magic
  unfolding open_request
  marked = refl

  same_token : constant_time_eq token token ≡ true
  same_token = (constant_time_decides token token).0 ∙ bytes_eq_refl token

  parse-open_request :
      is_literal target ≡ true
      → parse_open_request (open_request target token) token
        ≡ some (from_parts (ip target) (port target))
  unfolding parse_open_request addressed
  parse-open_request literal =
      let real : (port target == 0) ≡ false = ground arith in
      let specific : is_unspecified (ip target) ≡ false = ground arith in
      simp (
        marked,
        request_token,
        same_token,
        request_port,
        real,
        request_behind,
        request_address,
        ip_from-padded (ip target) address,
        specific,
      )

-- The request that a client writes for a numeric target, with the token of the relay, is read by the relay as
-- the target's address and port, with no flow information and no scope, and admitted as such exactly when the
-- relay allows that.
pub admitted-open_request :
    (c : RelayServerConfig) (target : SocketAddr)
    → length c.token ≡ 32
    → IsAddress (ip target)
    → port target < 65536
    → is_literal target ≡ true
    → admitted c (open_request target c.token) ≡ (
        if contains c.allowed_targets (from_parts (ip target) (port target))
        then some (from_parts (ip target) (port target))
        else none)
unfolding admitted
admitted-open_request c target sized address narrow literal =
    ap (allowed c) (parse-open_request target c.token sized address narrow literal)
