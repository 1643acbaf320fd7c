-- ===== src/Edge/Token.antt =====
-- `CapabilityIssuer` and `CapabilityVerifier` of shph-edge/src/capability.rs. A token is the list
-- of its bytes. Ed25519 (crate `ring`) and base64 (crate `base64`) are parameters with their laws.
pub mod Split
pub mod Sound
pub mod Issue
mod Tests
use shph.Prelude.{
  ℕ, ◌+◌, ◌-◌, ◌*◌, ◌/◌, ◌≤◌, ◌≡◌, Bool, true, false, not, ◌||◌, Option, none, some, List, [], ◌∷◌,
  ◌++◌, length, take, drop, any, All, bytes_eq, replicate, ltb, leb, ◌==◌, if◌then◌else◌, Result,
  ok, err, ◌>>=◌, ◌>>◌, reject_if, saturating_add,
}
use shph.Prelude.Bytes.{IsByte}
use shph.Edge.Capability.{
  CapabilityClaims, CapabilityError, malformed, invalid_signature, invalid_audience,
  invalid_lifetime, lifetime_too_long, not_yet_valid, expired, audience_mismatch, encode, decode,
  validate_shape, as_secs, nonce_len,
}
use shph.Edge.ReplayCache.{ReplayCache, VerifiedCapability, consume}
use Split.{split_once}

pub record TokenCrypto : Type 0 where
  -- the public half of a key pair, a signature over a message, and its check
  pub public_key : List ℕ → List ℕ
  pub sign : List ℕ → List ℕ → List ℕ
  pub verify : List ℕ → List ℕ → List ℕ → Bool
  pub b64_encode : List ℕ → List ℕ
  pub b64_decode : List ℕ → Option (List ℕ)
  pub verify-sign :
      (key message : List ℕ) → verify (public_key key) message (sign key message) ≡ true
  pub length-sign : (key message : List ℕ) → length (sign key message) ≡ 64
  pub sign-bytes : (key message : List ℕ) → All IsByte (sign key message)
  pub decode-encode :
      (bytes : List ℕ) → All IsByte bytes → b64_decode (b64_encode bytes) ≡ some bytes
  -- the alphabet of URL-safe base64 has no dot, and there is no padding
  pub encode_no_dot : (bytes : List ℕ) → any (λ b. b == b'.') (b64_encode bytes) ≡ false
  -- four letters stand for three bytes; twice the bytes is a bound
  pub length-encode : (bytes : List ℕ) → length (b64_encode bytes) ≤ 2 * length bytes

-- `CAPABILITY_VERSION` and the dot behind it.
abbrev pub version_prefix : List ℕ
version_prefix =
    b'p' ∷ b'h' ∷ b'a' ∷ b'n' ∷ b't' ∷ b'o' ∷ b'm' ∷ b'-' ∷ b'o' ∷ b'n' ∷ b'e' ∷ b'.' ∷ b'1' ∷ b'.'
    ∷ []

abbrev pub signing_domain : List ℕ
signing_domain =
    b'S' ∷ b'H' ∷ b'P' ∷ b'H' ∷ b'-' ∷ b'E' ∷ b'D' ∷ b'G' ∷ b'E' ∷ b'-' ∷ b'C' ∷ b'A' ∷ b'P' ∷ b'A'
    ∷ b'B' ∷ b'I' ∷ b'L' ∷ b'I' ∷ b'T' ∷ b'Y' ∷ b'/' ∷ b'P' ∷ b'H' ∷ b'A' ∷ b'N' ∷ b'T' ∷ b'O'
    ∷ b'M' ∷ b'-' ∷ b'O' ∷ b'N' ∷ b'E' ∷ b'/' ∷ b'1' ∷ 0 ∷ []

unfoldable pub signing_input : List ℕ → List ℕ
signing_input payload = signing_domain ++ payload

abbrev pub max_token_len : ℕ
max_token_len = 4096

pub record CapabilityIssuer : Type 0 where
  pub key_pair : List ℕ
  pub max_lifetime : ℕ

pub record CapabilityVerifier : Type 0 where
  pub public_key : List ℕ
  pub audience : List ℕ
  pub max_lifetime : ℕ
  pub clock_skew : ℕ

-- `CapabilityVerifier::new`: any refusal of the probe claims is an invalid audience.
unfoldable pub new_verifier : List ℕ → List ℕ → ℕ → ℕ → Result CapabilityError CapabilityVerifier
new_verifier key audience max_lifetime clock_skew = elim (validate_shape probe 1 max_lifetime) [
  | err _ ↦ err invalid_audience
  | ok _ ↦ ok (record {
    public_key = key;
    audience = audience;
    max_lifetime = max_lifetime;
    clock_skew = clock_skew;
  })
]
  where
    probe : CapabilityClaims
    probe = record {
      audience = audience;
      issued_at = 1;
      expires_at = 2;
      nonce = replicate nonce_len 0;
    }

abbrev pub saturating_mul_two : ℕ → ℕ
saturating_mul_two n = saturating_add n n

unfoldable pub replay_retention_secs : CapabilityVerifier → ℕ
replay_retention_secs v =
    saturating_add
      (saturating_add (as_secs v.max_lifetime) (saturating_mul_two (as_secs v.clock_skew))) 1

-- `ok_or` on a failing step.
abbrev pub or_malformed : Option (List ℕ) → Result CapabilityError (List ℕ)
or_malformed none = err malformed
or_malformed (some bytes) = ok bytes

abbrev pub or_split : Option (List ℕ × List ℕ) → Result CapabilityError (List ℕ × List ℕ)
or_split none = err malformed
or_split (some parts) = ok parts

-- The checks on decoded claims, and what is handed to the replay cache.
unfoldable pub check_claims :
    CapabilityVerifier → CapabilityClaims → ℕ → Result CapabilityError VerifiedCapability
check_claims v claims now = do
  let skew = as_secs v.clock_skew
  reject_if (not (bytes_eq claims.audience v.audience)) audience_mismatch
  reject_if (ltb (saturating_add now skew) claims.issued_at) not_yet_valid
  reject_if (leb claims.expires_at (now - skew)) expired
  reject_if (ltb claims.expires_at claims.issued_at) invalid_lifetime
  reject_if (claims.expires_at - claims.issued_at == 0) invalid_lifetime
  reject_if (ltb (as_secs v.max_lifetime) (claims.expires_at - claims.issued_at)) lifetime_too_long
  ok (record {
    claims = claims;
    valid_from = claims.issued_at - skew;
    replay_expires_at = saturating_add claims.expires_at skew;
  })

module _ (crypto : TokenCrypto) where
  unfoldable pub issue : CapabilityIssuer → CapabilityClaims → Result CapabilityError (List ℕ)
  issue i claims = do
    validate_shape claims claims.issued_at i.max_lifetime
    payload ← encode claims
    let signature = crypto.sign i.key_pair (signing_input payload)
    ok (version_prefix ++ (crypto.b64_encode payload ++ (b'.' ∷ crypto.b64_encode signature)))

  unfoldable pub verify_for_replay :
      CapabilityVerifier → List ℕ → ℕ → Result CapabilityError VerifiedCapability
  verify_for_replay v token now = do
    reject_if (ltb max_token_len (length token)) malformed
    reject_if (not (bytes_eq (take 14 token) version_prefix)) malformed
    parts ← or_split (split_once b'.' (drop 14 token))
    payload ← or_malformed (crypto.b64_decode parts.0)
    signature ← or_malformed (crypto.b64_decode parts.1)
    reject_if (not (length signature == 64)) malformed
    reject_if (not (crypto.verify v.public_key (signing_input payload) signature)) invalid_signature
    claims ← decode payload
    check_claims v claims now

  -- `verify`: a token that fails its checks does not reach the cache.
  unfoldable pub verify_token :
      CapabilityVerifier
      → List ℕ
      → ℕ
      → ReplayCache
      → ReplayCache × Result CapabilityError CapabilityClaims
  verify_token v token now cache = elim (verify_for_replay v token now) [
    | err e ↦ (cache, err e)
    | ok verified ↦ consume cache verified now
  ]
