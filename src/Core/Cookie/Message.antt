-- ===== src/Core/Cookie/Message.antt =====
-- The signed bytes tell the peer's address, its port and the epoch apart.
use shph.Prelude.{
  ℕ, ◌^◌, ◌<◌, ◌≡◌, sym, ap, ◌∙◌, List, ◌++◌, length, take, drop, arith, take-append, drop-append,
}
use shph.Prelude.Bytes.{be_bytes, length-be_bytes, be_bytes_injective}
use shph.Core.Cookie.{IpAddr, v4, v6, SocketAddr, ip, port, message, address_bytes}

-- The octets of an address, as many as its family has.
pub data IsIp : IpAddr → Type 0 where
  four : {octets : List ℕ} → length octets ≡ 4 → IsIp (v4 octets)
  six : {octets : List ℕ} → length octets ≡ 16 → IsIp (v6 octets)

pub record IsPeer (peer : SocketAddr) : Type 0 where
  pub addressed : IsIp (ip peer)
  pub port_u16 : port peer < 65536

-- Two byte strings that start with parts of the same length agree on both halves.
split_same :
    (n : ℕ) (xs ys us vs : List ℕ)
    → length xs ≡ n
    → length us ≡ n
    → xs ++ ys ≡ us ++ vs
    → (xs ≡ us) × (ys ≡ vs)
split_same n xs ys us vs h k e = (
  sym (take-append n xs ys h) ∙ ap (take n) e ∙ take-append n us vs k,
  sym (drop-append n xs ys h) ∙ ap (drop n) e ∙ drop-append n us vs k,
)

addresses_same :
    (a b : IpAddr) (ys vs : List ℕ)
    → IsIp a
    → IsIp b
    → address_bytes a ++ ys ≡ address_bytes b ++ vs
    → (a ≡ b) × (ys ≡ vs)
unfolding address_bytes
addresses_same (v4 xs) (v4 us) ys vs (four h) (four k) e =
    let (same, rest) = split_same 4 xs ys us vs h k (ap (drop 1) e) in (ap v4 same, rest)
addresses_same (v6 xs) (v6 us) ys vs (six h) (six k) e =
    let (same, rest) = split_same 16 xs ys us vs h k (ap (drop 1) e) in (ap v6 same, rest)
addresses_same (v4 xs) (v6 us) ys vs (four h) (six k) e = absurd (ground (arith, e))
addresses_same (v6 xs) (v4 us) ys vs (six h) (four k) e = absurd (ground (arith, e))

-- For addresses of their families' lengths, 16-bit ports and 64-bit epochs, equal messages are for
-- the same IP address, the same port and the same epoch. What else an IPv6 socket address holds, its flow
-- information and its scope, is not signed.
pub message_injective :
    (p q : SocketAddr) (m n : ℕ)
    → IsPeer p
    → IsPeer q
    → m < 2 ^ 64
    → n < 2 ^ 64
    → message p m ≡ message q n
    → (ip p ≡ ip q) × (port p ≡ port q) × (m ≡ n)
unfolding message
message_injective p q m n hp hq hm hn e =
    let (ips, rest) = addresses_same (ip p) (ip q) _ _ hp.addressed hq.addressed (ap (drop 22) e) in
    let (ports, epochs) =
      split_same 2 (be_bytes 2 (port p)) _ (be_bytes 2 (port q)) _ (length-be_bytes 2 (port p))
        (length-be_bytes 2 (port q)) rest in
    let ports_same : (port p) ≡ (port q) =
      be_bytes_injective 2 (port p) (port q) (omega (arith, hp.port_u16))
        (omega (arith, hq.port_u16)) ports in
    (ips, ports_same, be_bytes_injective 8 m n (omega (arith, hm)) (omega (arith, hn)) epochs)
