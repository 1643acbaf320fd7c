-- ===== src/Core/Cookie.antt =====
-- `StatelessCookieAuthority` of shph-core/src/cookie.rs. HMAC-SHA256 is a parameter. What the clock and the
-- random generator give in a call are arguments: the seconds since the epoch, absent before it, and 32
-- fresh bytes or the generator's error.
pub mod Message
pub mod Accepts
mod Tests
use shph.Prelude.{
  ℕ, ◌+◌, ◌-◌, ◌/◌, ◌≤◌, ◌≡◌, Bool, true, false, not, Option, none, some, List, [], ◌∷◌, ◌++◌,
  length, any, ltb, leb, ◌==◌, if◌then◌else◌, Result, ok, err, ShphError, crypto,
}
use shph.Prelude.Bytes.{be_bytes}
use shph.Core.ConstantTime.{constant_time_diff}

abbrev pub cookie_epoch_secs : ℕ
cookie_epoch_secs = 30

abbrev pub cookie_tag_bytes : ℕ
cookie_tag_bytes = 32

-- `b"shph-preauth-cookie-v1"`
abbrev pub cookie_domain : List ℕ
cookie_domain =
    b's' ∷ b'h' ∷ b'p' ∷ b'h' ∷ b'-' ∷ b'p' ∷ b'r' ∷ b'e' ∷ b'a' ∷ b'u' ∷ b't' ∷ b'h' ∷ b'-' ∷ b'c'
    ∷ b'o' ∷ b'o' ∷ b'k' ∷ b'i' ∷ b'e' ∷ b'-' ∷ b'v' ∷ b'1' ∷ []

-- `IpAddr` with its octets.
pub data IpAddr : Type 0 where
  v4 v6 : List ℕ → IpAddr

-- `SocketAddr`: octets and port, and behind these the flow information and the scope of an IPv6 address.
pub data SocketAddr : Type 0 where
  socket_v4 : List ℕ → ℕ → SocketAddr
  socket_v6 : List ℕ → ℕ → ℕ → ℕ → SocketAddr

abbrev pub ip : SocketAddr → IpAddr
ip (socket_v4 octets n) = v4 octets
ip (socket_v6 octets n flowinfo scope_id) = v6 octets

abbrev pub port : SocketAddr → ℕ
port (socket_v4 octets n) = n
port (socket_v6 octets n flowinfo scope_id) = n

pub record StatelessCookieAuthority : Type 0 where
  pub current_secret : List ℕ
  pub previous_secret : List ℕ
  pub current_epoch : ℕ

unfoldable pub address_bytes : IpAddr → List ℕ
address_bytes (v4 octets) = 4 ∷ octets
address_bytes (v6 octets) = 6 ∷ octets

-- The bytes that `mac` signs.
unfoldable pub message : SocketAddr → ℕ → List ℕ
message peer epoch =
    cookie_domain ++ (address_bytes (ip peer) ++ (be_bytes 2 (port peer) ++ be_bytes 8 epoch))

unfoldable pub epoch_of : Option ℕ → Result ShphError ℕ
epoch_of none = err (crypto "system clock before unix epoch")
epoch_of (some seconds) = ok (seconds / cookie_epoch_secs)

unfoldable pub rotate_to :
    StatelessCookieAuthority
    → ℕ
    → Result ShphError (List ℕ)
    → StatelessCookieAuthority × Result ShphError (Unit {0})
rotate_to a epoch fresh = if leb epoch a.current_epoch then (a, ok tt) else (elim fresh [
  | err e ↦ (a, err e)
  | ok secret ↦ (
    record { current_secret = secret; previous_secret = a.current_secret; current_epoch = epoch },
    ok tt,
  )
])

module _ (hmac : List ℕ → List ℕ → List ℕ) where
  unfoldable pub mac : List ℕ → SocketAddr → ℕ → List ℕ
  mac secret peer epoch = hmac secret (message peer epoch)

  -- What follows a rotation: the cookie of the epoch.
  abbrev pub issued :
      SocketAddr
      → ℕ
      → StatelessCookieAuthority × Result ShphError (Unit {0})
      → StatelessCookieAuthority × Result ShphError (List ℕ)
  issued peer epoch (a, ok _) = (a, ok (mac a.current_secret peer epoch))
  issued peer epoch (a, err e) = (a, err e)

  unfoldable pub issue :
      StatelessCookieAuthority
      → SocketAddr
      → Option ℕ
      → Result ShphError (List ℕ)
      → StatelessCookieAuthority × Result ShphError (List ℕ)
  issue a peer clock fresh = elim (epoch_of clock) [
    | err e ↦ (a, err e)
    | ok epoch ↦ issued peer epoch (rotate_to a epoch fresh)
  ]

  -- Both secrets, each with this epoch and the one before.
  unfoldable pub candidates : StatelessCookieAuthority → SocketAddr → ℕ → List (List ℕ)
  candidates a peer epoch =
      mac a.current_secret peer epoch
      ∷ mac a.current_secret peer (epoch - 1)
      ∷ mac a.previous_secret peer epoch
      ∷ mac a.previous_secret peer (epoch - 1)
      ∷ []

  abbrev pub verified :
      SocketAddr
      → List ℕ
      → ℕ
      → StatelessCookieAuthority × Result ShphError (Unit {0})
      → StatelessCookieAuthority × Result ShphError Bool
  verified peer cookie epoch (a, ok _) =
      (a, ok (any (λ expected. constant_time_diff cookie expected == 0) (candidates a peer epoch)))
  verified peer cookie epoch (a, err e) = (a, err e)

  unfoldable pub verify :
      StatelessCookieAuthority
      → SocketAddr
      → List ℕ
      → Option ℕ
      → Result ShphError (List ℕ)
      → StatelessCookieAuthority × Result ShphError Bool
  verify a peer cookie clock fresh =
      if not (length cookie == cookie_tag_bytes) then (a, ok false) else (elim (epoch_of clock) [
        | err e ↦ (a, err e)
        | ok epoch ↦ verified peer cookie epoch (rotate_to a epoch fresh)
      ])
