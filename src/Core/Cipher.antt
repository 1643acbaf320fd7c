-- ===== src/Core/Cipher.antt =====
-- `SendCipher` and `ReceiveCipher` of shph-core/src/crypto.rs. A method on `&mut self` returns the
-- new state beside its result. ChaCha20-Poly1305 is a parameter with the law of its documentation.
pub mod Nonce
pub mod Send
pub mod Receive
pub mod Session
pub mod InOrder
mod Tests
use shph.Prelude.{
  ℕ, ◌+◌, ◌-◌, ◌^◌, ◌≡◌, Bool, true, false, not, Option, none, some, List, [], ◌∷◌, ◌++◌, length,
  take, drop, replicate, bytes_eq, ltb, leb, if◌then◌else◌, Result, ok, err, ◌>>=◌, ◌>>◌, reject_if,
  ShphError, crypto,
}
use shph.Prelude.Bytes.{be_bytes, be_value}
use shph.Core.Window.{ReplayWindow, check_and_insert}
use shph.Core.Window

-- The AEAD of the `chacha20poly1305` crate: key set-up, which may refuse the key, sealing and
-- opening under a 12-byte nonce. What was sealed opens again under the same key and nonce.
pub record Aead : Type 0 where
  pub new_from_slice : List ℕ → Result ShphError (Unit {0})
  pub seal : List ℕ → List ℕ → List ℕ → Result ShphError (List ℕ)
  pub unseal : List ℕ → List ℕ → List ℕ → Result ShphError (List ℕ)
  pub unseal-seal :
      (key nonce plaintext sealed : List ℕ)
      → seal key nonce plaintext ≡ ok sealed
      → unseal key nonce sealed ≡ ok plaintext

abbrev pub aead_nonce_limit : ℕ
aead_nonce_limit = 2 ^ 32 - 1

pub record SendCipher : Type 0 where
  pub key : List ℕ
  pub nonce : ℕ

-- `[0u8; 12]` with the big-endian counter in bytes 4..12.
unfoldable pub nonce_bytes : ℕ → List ℕ
nonce_bytes n = replicate 4 0 ++ be_bytes 8 n

unfoldable pub nonce_counter : List ℕ → Result ShphError ℕ
nonce_counter bytes = do
  reject_if (ltb (length bytes) 12) (crypto "nonce too short")
  reject_if (not (bytes_eq (take 4 bytes) (replicate 4 0)))
      (crypto "nonce prefix is not in canonical SHPH form")
  ok (be_value (take 8 (drop 4 bytes)))

pub data ReplayState : Type 0 where
  strict : Option ℕ → ReplayState
  window : ReplayWindow → ReplayState

pub record ReceiveCipher : Type 0 where
  pub key : List ℕ
  pub replay : ReplayState

abbrev pub new_receiver : List ℕ → ReceiveCipher
new_receiver key = record { key = key; replay = strict none }

unfoldable pub new_with_replay_window : List ℕ → ℕ → ReceiveCipher
new_with_replay_window key size = record { key = key; replay = window (Window.new size) }

-- `last.is_some_and(|last| counter <= last)`
unfoldable pub is_stale : Option ℕ → ℕ → Bool
is_stale none counter = false
is_stale (some last) counter = leb counter last

admit_window : ReplayWindow × Bool → Result ShphError ReplayState
admit_window (w, fresh) =
    if fresh then ok (window w) else err (crypto "replay or stale nonce rejected")

-- The replay state that is stored if the frame authenticates.
unfoldable pub candidate : ReplayState → ℕ → Result ShphError ReplayState
unfolding is_stale admit_window
candidate (strict last) counter =
    if is_stale last counter
    then err (crypto "replay or stale nonce rejected")
    else ok (strict (some counter))
candidate (window w) counter = admit_window (check_and_insert w counter)

module _ (aead : Aead) where
  -- The body of `encrypt` up to the increment.
  unfoldable pub sealed_frame : SendCipher → List ℕ → Result ShphError (List ℕ)
  sealed_frame c plaintext = do
    reject_if (leb aead_nonce_limit c.nonce)
        (crypto "AEAD nonce limit reached; rekey required to avoid nonce reuse")
    aead.new_from_slice c.key
    ciphertext ← aead.seal c.key (nonce_bytes c.nonce) plaintext
    ok (nonce_bytes c.nonce ++ ciphertext)

  bump : SendCipher → Result ShphError (List ℕ) → SendCipher × Result ShphError (List ℕ)
  bump c (ok framed) = (record c { nonce = c.nonce + 1 }, ok framed)
  bump c (err e) = (c, err e)

  unfoldable pub encrypt : SendCipher → List ℕ → SendCipher × Result ShphError (List ℕ)
  unfolding bump
  encrypt c plaintext = bump c (sealed_frame c plaintext)

  -- The body of `decrypt` up to the store of the candidate.
  unfoldable pub opened_frame : ReceiveCipher → List ℕ → Result ShphError (List ℕ × ReplayState)
  opened_frame r frame = do
    aead.new_from_slice r.key
    reject_if (ltb (length frame) 12) (crypto "ciphertext too short")
    counter ← nonce_counter (take 12 frame)
    next ← candidate r.replay counter
    plaintext ← aead.unseal r.key (take 12 frame) (drop 12 frame)
    ok (plaintext, next)

  commit :
      ReceiveCipher
      → Result ShphError (List ℕ × ReplayState)
      → ReceiveCipher × Result ShphError (List ℕ)
  commit r (ok (plaintext, next)) = (record r { replay = next }, ok plaintext)
  commit r (err e) = (r, err e)

  unfoldable pub decrypt : ReceiveCipher → List ℕ → ReceiveCipher × Result ShphError (List ℕ)
  unfolding commit
  decrypt r frame = commit r (opened_frame r frame)
