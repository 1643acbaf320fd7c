-- ===== src/Core/Cookie/Tests.antt =====
-- The cookie theorems with a toy tag.
use shph.Prelude.{
  ℕ, ◌+◌, ◌/◌, ◌-◌, ◌≡◌, ◌⊎◌, refl, true, some, List, [], ◌∷◌, length, replicate, length-replicate,
  arith, ok, err, crypto, bytes_eq, ◌==◌,
}
use shph.Prelude.Bytes.{be_bytes}
use shph.Core.Cookie.{
  SocketAddr, socket_v4, socket_v6, ip, port, StatelessCookieAuthority, issue, verify, mac, message,
  rotate_to, epoch_of, candidates, address_bytes,
}
use shph.Core.ConstantTime.{constant_time_diff, constant_time_eq, constant_time_decides, diff_from}
use shph.Core.Cookie.Accepts.{verify-issue, verify_sound}
use shph.Core.Cookie.Message.{IsPeer, six, message_injective}

abbrev toy : List ℕ → List ℕ → List ℕ
toy key text = replicate 32 (length key + length text)

toy_sized : (key text : List ℕ) → length (toy key text) ≡ 32
toy_sized key text = length-replicate {A = ℕ} 32 (length key + length text)

abbrev peer : SocketAddr
peer = socket_v4 (192 ∷ 0 ∷ 2 ∷ 10 ∷ []) 1234

abbrev authority : StatelessCookieAuthority
authority = record { current_secret = 7 ∷ []; previous_secret = 8 ∷ 8 ∷ []; current_epoch = 10 }

abbrev cookie : List ℕ
cookie = toy (7 ∷ []) (message peer 10)

issue_now : issue toy authority peer (some 310) (err (crypto "none")) ≡ (authority, ok cookie)
unfolding issue epoch_of rotate_to mac
issue_now = refl

verify-issue_example : (verify toy authority peer cookie (some 340) (ok (9 ∷ []))).1 ≡ ok true
verify-issue_example =
    verify-issue toy toy_sized authority peer 310 340 (9 ∷ []) (err (crypto "none")) issue_now
      (omega arith) (omega arith)

accepted_again :
    verify toy authority peer cookie (some 310) (err (crypto "none")) ≡ (authority, ok true)
unfolding verify epoch_of rotate_to candidates mac constant_time_diff diff_from message
    address_bytes be_bytes
accepted_again = refl

verify_sound_example :
    (secret : List ℕ) × (epoch : ℕ) × ((secret ≡ 7 ∷ []) ⊎ (secret ≡ 8 ∷ 8 ∷ []))
    × ((epoch ≡ 310 / 30) ⊎ (epoch ≡ 310 / 30 - 1))
    × (cookie ≡ mac toy secret peer epoch)
verify_sound_example =
    verify_sound toy authority peer cookie 310 (err (crypto "none")) accepted_again

-- One link-local address on two interfaces.
abbrev linked : SocketAddr
linked = socket_v6 (replicate 16 254) 443 0 1

abbrev scoped : SocketAddr
scoped = socket_v6 (replicate 16 254) 443 0 2

linked-IsPeer : IsPeer linked
linked-IsPeer = record { addressed = six refl; port_u16 = omega arith }

scoped-IsPeer : IsPeer scoped
scoped-IsPeer = record { addressed = six refl; port_u16 = omega arith }

abbrev ten : ℕ
ten = 10

message_injective_example : (ip linked ≡ ip scoped) × (port linked ≡ port scoped) × (ten ≡ ten)
unfolding message
message_injective_example =
    message_injective linked scoped ten ten linked-IsPeer scoped-IsPeer (omega arith) (omega arith)
      refl

abbrev abc : List ℕ
abc = b'a' ∷ b'b' ∷ b'c' ∷ []

abbrev ab : List ℕ
ab = b'a' ∷ b'b' ∷ []

constant_time_decides_example :
    (constant_time_eq abc ab ≡ bytes_eq abc ab)
    × ((constant_time_diff abc ab == 0) ≡ bytes_eq abc ab)
constant_time_decides_example = constant_time_decides abc ab
