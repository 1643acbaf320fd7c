-- ===== src/Edge/Capability.antt =====
-- The claims of shph-edge/src/capability.rs and their wire form. An audience is the list of its
-- UTF-8 bytes, a `Duration` its number of nanoseconds.
pub mod Utf8
pub mod Codec
mod Tests
use shph.Prelude.{
  ℕ, ◌+◌, ◌-◌, ◌*◌, ◌/◌, Bool, true, false, not, ◌&&◌, ◌||◌, List, [], ◌∷◌, ◌++◌, length, get_or,
  take, drop, any, ltb, leb, ◌==◌, if◌then◌else◌, Result, ok, err, ◌>>=◌, ◌>>◌, reject_if,
}
use shph.Prelude.Bytes.{be_bytes, be_value}
use Utf8.{is_utf8}

pub data CapabilityError : Type 0 where
  malformed invalid_signature invalid_audience invalid_lifetime lifetime_too_long : CapabilityError
  not_yet_valid expired audience_mismatch replay invalid_signing_key : CapabilityError

pub record CapabilityClaims : Type 0 where
  pub audience : List ℕ
  pub issued_at : ℕ
  pub expires_at : ℕ
  pub nonce : List ℕ

abbrev pub nonce_len : ℕ
nonce_len = 16

abbrev pub max_audience_len : ℕ
max_audience_len = 64

-- `Duration::as_secs`
abbrev pub as_secs : ℕ → ℕ
as_secs d = d / 1000000000

-- Not ASCII, a control character or a space, `/` or `\`.
abbrev pub bad_audience_byte : ℕ → Bool
bad_audience_byte b = leb 128 b || leb b 0x20 || b == b'/' || b == 0x5c

unfoldable pub validate_shape : CapabilityClaims → ℕ → ℕ → Result CapabilityError (Unit {0})
validate_shape c now max_lifetime = do
  reject_if (length c.audience == 0 || ltb max_audience_len (length c.audience)) invalid_audience
  reject_if (any bad_audience_byte c.audience) invalid_audience
  reject_if (leb c.expires_at c.issued_at) invalid_lifetime
  reject_if (ltb (as_secs max_lifetime) (c.expires_at - c.issued_at)) lifetime_too_long
  reject_if (ltb now c.issued_at) not_yet_valid
  reject_if (leb c.expires_at now) expired

unfoldable pub encode : CapabilityClaims → Result CapabilityError (List ℕ)
encode c = do
  reject_if (ltb 255 (length c.audience)) invalid_audience
  ok (
      length c.audience ∷ c.audience
      ++ (be_bytes 8 c.issued_at ++ (be_bytes 8 c.expires_at ++ c.nonce)))

-- The bytes from `cursor` up to `cursor + n`.
abbrev pub slice : ℕ → ℕ → List ℕ → List ℕ
slice cursor n bytes = take n (drop cursor bytes)

unfoldable pub decode : List ℕ → Result CapabilityError CapabilityClaims
decode payload = do
  reject_if (ltb (length payload) (1 + 8 + 8 + nonce_len)) malformed
  let audience_len = get_or payload 0 0
  reject_if
      (audience_len == 0
        || ltb max_audience_len audience_len
        || not (1 + audience_len + 8 + 8 + nonce_len == length payload))
      malformed
  reject_if (not (is_utf8 (slice 1 audience_len payload))) malformed
  ok (record {
    audience = slice 1 audience_len payload;
    issued_at = be_value (slice (1 + audience_len) 8 payload);
    expires_at = be_value (slice (1 + audience_len + 8) 8 payload);
    nonce = drop (1 + audience_len + 8 + 8) payload;
  })
