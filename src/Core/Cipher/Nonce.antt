-- ===== src/Core/Cipher/Nonce.antt =====
-- The nonce prefix of a frame and its counter.
use shph.Prelude.{ℕ, ◌^◌, ◌<◌, ◌≡◌, ap, length, arith, ok, take_all}
use shph.Prelude.Bytes.{be_bytes, be_value, length-be_bytes, be_value-be_bytes}
use shph.Core.Cipher.{nonce_bytes, nonce_counter}

pub length-nonce_bytes : (n : ℕ) → length (nonce_bytes n) ≡ 12
unfolding nonce_bytes
length-nonce_bytes n = omega (arith, length-be_bytes 8 n)

-- The counter of a prefix that the sender wrote is the sender's counter.
pub nonce_counter-nonce_bytes : (n : ℕ) → n < 2 ^ 64 → nonce_counter (nonce_bytes n) ≡ ok n
unfolding nonce_counter nonce_bytes
nonce_counter-nonce_bytes n h = ground (
  arith,
  length-be_bytes 8 n,
  take_all 8 (be_bytes 8 n),
  ap be_value (take_all 8 (be_bytes 8 n) (omega (arith, length-be_bytes 8 n))),
  be_value-be_bytes 8 n,
)

pub nonce_bytes_injective :
    (m n : ℕ) → m < 2 ^ 64 → n < 2 ^ 64 → nonce_bytes m ≡ nonce_bytes n → m ≡ n
nonce_bytes_injective m n h k e =
    cc (nonce_counter-nonce_bytes m h, nonce_counter-nonce_bytes n k, ap nonce_counter e)
