-- ===== src/Edge/Token/Issue.antt =====
-- A token that an issuer hands out is accepted by the verifier that holds its public key.
use shph.Prelude.{
  ℕ, ◌+◌, ◌-◌, ◌^◌, ◌≤◌, ◌<◌, ◌≡◌, refl, sym, ap, ◌∙◌, true, false, ◌||◌, List, [], ◌∷◌, ◌++◌,
  length, take, drop, any, All, All-append, length-append, bytes_eq, bytes_eq_refl, ltb, ◌==◌,
  arith, ok, reject_if, saturating_add, >>-eq-ok, reject_if-eq-ok, some,
}
use shph.Prelude.Bytes.{IsByte, be_bytes, be_bytes-IsByte}
use shph.Edge.Capability.{
  CapabilityClaims, decode, validate_shape, bad_audience_byte, as_secs, nonce_len, max_audience_len,
  invalid_audience,
}
use shph.Edge.Capability.Utf8.{is_utf8-ascii}
use shph.Edge.Capability.Codec.{IsWire, wire, encode-wire, length-wire, decode-wire}
use shph.Edge.Token.{
  TokenCrypto, CapabilityIssuer, CapabilityVerifier, signing_input, check_claims, issue,
  verify_for_replay, max_token_len, version_prefix,
}
use shph.Edge.Token.Split.{split_once, split_once-join}

-- What the types of the source say of claims: 64-bit times, and a nonce of 16 bytes.
pub record IsTyped (c : CapabilityClaims) : Type 0 where
  pub issued_u64 : c.issued_at < 2 ^ 64
  pub expires_u64 : c.expires_at < 2 ^ 64
  pub nonce_sized : length c.nonce ≡ nonce_len
  pub nonce_bytes : All IsByte c.nonce

ascii : (bytes : List ℕ) → any bad_audience_byte bytes ≡ false → All (λ b. b < 128) bytes
ascii [] h = tt
ascii (b ∷ bytes) h = (ground arith, ascii bytes (ground arith))

ascii-IsByte : (bytes : List ℕ) → All (λ b. b < 128) bytes → All IsByte bytes
ascii-IsByte [] h = tt
ascii-IsByte (b ∷ bytes) h = (omega (arith, h.0), ascii-IsByte bytes h.1)

-- The shape that `issue` insists on.
record IsShaped (c : CapabilityClaims) (max_lifetime : ℕ) : Type 0 where
  some_audience : 0 < length c.audience
  short_audience : length c.audience ≤ max_audience_len
  clean : any bad_audience_byte c.audience ≡ false
  lives : c.issued_at < c.expires_at

validate_shape-IsShaped :
    (c : CapabilityClaims) (now max_lifetime : ℕ)
    → validate_shape c now max_lifetime ≡ ok tt
    → IsShaped c max_lifetime
unfolding validate_shape
validate_shape-IsShaped c now max_lifetime e =
    let (sized, e1) =
      >>-eq-ok
        (reject_if (length c.audience == 0 || ltb max_audience_len (length c.audience))
          invalid_audience)
        _ e in
    let (clean, e2) =
      >>-eq-ok (reject_if (any bad_audience_byte c.audience) invalid_audience) _ e1 in
    record {
      some_audience = ground arith;
      short_audience = ground arith;
      clean = reject_if-eq-ok (any bad_audience_byte c.audience) invalid_audience clean;
      lives = ground arith;
    }

module _ (c : CapabilityClaims) (typed : IsTyped c) (max_lifetime : ℕ)
    (shaped : IsShaped c max_lifetime) where
  shaped-IsWire : IsWire c
  shaped-IsWire = record {
    some_audience = shaped.some_audience;
    short_audience = shaped.short_audience;
    text = is_utf8-ascii c.audience (ascii c.audience shaped.clean);
    issued_u64 = typed.issued_u64;
    expires_u64 = typed.expires_u64;
    nonce_sized = typed.nonce_sized;
  }

  wire-IsByte : All IsByte (wire c)
  wire-IsByte =
      let times : All IsByte (be_bytes 8 c.issued_at ++ (be_bytes 8 c.expires_at ++ c.nonce)) =
        All-append IsByte (be_bytes 8 c.issued_at) _ (be_bytes-IsByte 8 c.issued_at) (
          All-append IsByte (be_bytes 8 c.expires_at) c.nonce (be_bytes-IsByte 8 c.expires_at)
            typed.nonce_bytes) in
      (
        omega (arith, shaped.short_audience),
        All-append IsByte c.audience _ (ascii-IsByte c.audience (ascii c.audience shaped.clean))
            times,
      )

check_claims-current :
    (v : CapabilityVerifier) (c : CapabilityClaims) (now : ℕ)
    → c.audience ≡ v.audience
    → c.issued_at ≤ now
    → now < c.expires_at
    → c.expires_at ≤ c.issued_at + as_secs v.max_lifetime
    → c.expires_at < 2 ^ 64
    → check_claims v c now
      ≡ ok (record {
        claims = c;
        valid_from = c.issued_at - as_secs v.clock_skew;
        replay_expires_at = saturating_add c.expires_at (as_secs v.clock_skew);
      })
unfolding check_claims
check_claims-current v c now us begun not_over bounded word =
    let same : bytes_eq c.audience v.audience ≡ true =
      ap (bytes_eq c.audience) (sym us) ∙ bytes_eq_refl c.audience in
    ground arith

module _ (crypto : TokenCrypto) where
  token_of : List ℕ → List ℕ → List ℕ
  token_of payload signature =
      version_prefix ++ (crypto.b64_encode payload ++ (b'.' ∷ crypto.b64_encode signature))

  length-token_of :
      (payload signature : List ℕ)
      → length payload ≤ 97
      → length signature ≡ 64
      → length (token_of payload signature) ≤ max_token_len
  unfolding token_of
  length-token_of payload signature small sized = omega (
    arith,
    length-append (crypto.b64_encode payload) (b'.' ∷ crypto.b64_encode signature),
    crypto.length-encode payload,
    crypto.length-encode signature,
  )

  -- Every step before the claims succeeds.
  verify_steps :
      (v : CapabilityVerifier) (token first second payload signature : List ℕ) (now : ℕ)
      {claims : CapabilityClaims}
      → length token ≤ max_token_len
      → take 14 token ≡ version_prefix
      → split_once b'.' (drop 14 token) ≡ some (first, second)
      → crypto.b64_decode first ≡ some payload
      → crypto.b64_decode second ≡ some signature
      → length signature ≡ 64
      → crypto.verify v.public_key (signing_input payload) signature ≡ true
      → decode payload ≡ ok claims
      → verify_for_replay crypto v token now ≡ check_claims v claims now
  unfolding verify_for_replay
  verify_steps v token first second payload signature now short headed split one two sized checked
        decoded =
      let head : bytes_eq (take 14 token) version_prefix ≡ true =
        ap (λ t. bytes_eq t version_prefix) headed in
      ground arith

  verify-token_of :
      (v : CapabilityVerifier) (payload : List ℕ) (key : List ℕ) (now : ℕ)
      {claims : CapabilityClaims}
      → v.public_key ≡ crypto.public_key key
      → length payload ≤ 97
      → All IsByte payload
      → decode payload ≡ ok claims
      → verify_for_replay crypto v (token_of payload (crypto.sign key (signing_input payload))) now
        ≡ check_claims v claims now
  unfolding token_of
  verify-token_of v payload key now {claims} keys small bytes decoded =
      let message : List ℕ = signing_input payload in
      let signature : List ℕ = crypto.sign key message in
      verify_steps v (token_of payload signature) (crypto.b64_encode payload)
        (crypto.b64_encode signature) payload signature now
        (length-token_of payload signature small (crypto.length-sign key message)) refl
        (split_once-join b'.' (crypto.b64_encode payload) (crypto.b64_encode signature)
          (crypto.encode_no_dot payload))
        (crypto.decode-encode payload bytes)
        (crypto.decode-encode signature (crypto.sign-bytes key message))
        (crypto.length-sign key message)
        (ap (λ k. crypto.verify k message signature) keys ∙ crypto.verify-sign key message) decoded

  -- A token issued for claims of 64-bit times and a nonce of 16 bytes is accepted by a verifier with the issuer's public key, the claims'
  -- audience and a lifetime limit that admits them, at every time from the claims' start up to their end, and
  -- it is read as those claims.
  pub verify_for_replay-issue :
      (i : CapabilityIssuer) (v : CapabilityVerifier) (c : CapabilityClaims) (now : ℕ)
      {token : List ℕ}
      → IsTyped c
      → issue crypto i c ≡ ok token
      → v.public_key ≡ crypto.public_key i.key_pair
      → c.audience ≡ v.audience
      → c.issued_at ≤ now
      → now < c.expires_at
      → c.expires_at ≤ c.issued_at + as_secs v.max_lifetime
      → verify_for_replay crypto v token now
        ≡ ok (record {
          claims = c;
          valid_from = c.issued_at - as_secs v.clock_skew;
          replay_expires_at = saturating_add c.expires_at (as_secs v.clock_skew);
        })
  unfolding issue token_of
  verify_for_replay-issue i v c now {token} typed issued keys us begun not_over bounded =
      let (shape, e1) = >>-eq-ok (validate_shape c c.issued_at i.max_lifetime) _ issued in
      let shaped : IsShaped c i.max_lifetime =
        validate_shape-IsShaped c c.issued_at i.max_lifetime shape in
      let w : IsWire c = shaped-IsWire c typed i.max_lifetime shaped in
      let made : issue crypto i c
          ≡ ok (token_of (wire c) (crypto.sign i.key_pair (signing_input (wire c)))) =
        ground (arith, shape, encode-wire c w) in
      let same : token_of (wire c) (crypto.sign i.key_pair (signing_input (wire c))) ≡ token =
        ground (arith, made, issued) in
      ap (λ t. verify_for_replay crypto v t now) (sym same)
      ∙ verify-token_of v (wire c) i.key_pair now keys
          (omega (arith, length-wire c w, w.short_audience))
          (wire-IsByte c typed i.max_lifetime shaped) (decode-wire c w)
      ∙ check_claims-current v c now us begun not_over bounded typed.expires_u64
