-- ===== src/Edge/Token/Sound.antt =====
-- What an accepted token tells: who signed it, and that its claims hold now.
use shph.Prelude.{
  Option, none, some, ◌∷◌, ◌++◌, ap₂, take-append-drop, ℕ, ◌+◌, ◌-◌, ◌≤◌, ◌<◌, ◌≡◌, sym, ap, ◌∙◌,
  true, not, List, length, take, drop, bytes_eq, ltb, ◌==◌, arith, ok, reject_if, saturating_add,
  >>-eq-ok, >>=-eq-ok, bytes_eq→eq,
}
use shph.Edge.Capability.{CapabilityClaims, decode, as_secs, malformed, invalid_signature}
use shph.Edge.ReplayCache.{VerifiedCapability}
use shph.Edge.Token.{
  TokenCrypto, CapabilityVerifier, signing_input, check_claims, verify_for_replay, max_token_len,
  version_prefix, or_split, or_malformed,
}
use shph.Edge.Token.Split.{split_once, split_once_sound}

-- The claims name this verifier's audience, the clock is in their window with the skew allowed on
-- both ends, their lifetime is positive and within the verifier's limit, and the cache is told to
-- keep the nonce as long as the token can be shown.
pub record IsCurrent (v : CapabilityVerifier) (now : ℕ) (c : VerifiedCapability) : Type 0 where
  pub for_us : c.claims.audience ≡ v.audience
  pub begun : c.claims.issued_at ≤ saturating_add now (as_secs v.clock_skew)
  pub not_over : now < c.claims.expires_at + as_secs v.clock_skew
  pub lives : c.claims.issued_at < c.claims.expires_at
  pub bounded : c.claims.expires_at ≤ c.claims.issued_at + as_secs v.max_lifetime
  pub from : c.valid_from ≡ c.claims.issued_at - as_secs v.clock_skew
  pub until : c.replay_expires_at ≡ saturating_add c.claims.expires_at (as_secs v.clock_skew)

check_claims-IsCurrent :
    (v : CapabilityVerifier) (claims : CapabilityClaims) (now : ℕ) {c : VerifiedCapability}
    → check_claims v claims now ≡ ok c
    → (c.claims ≡ claims) × IsCurrent v now c
unfolding check_claims
check_claims-IsCurrent v claims now {c} e =
    let same : c.claims ≡ claims = ground arith in
    let us : bytes_eq claims.audience v.audience ≡ true = ground arith in
    (
      same,
      record {
        for_us = ap (λ t. t.audience) same ∙ bytes_eq→eq claims.audience v.audience us;
        begun = ground arith;
        not_over = ground arith;
        lives = ground arith;
        bounded = ground arith;
        from = ground arith;
        until = ground arith;
      },
    )

or_split-ok :
    (o : Option (List ℕ × List ℕ)) {parts : List ℕ × List ℕ}
    → or_split o ≡ ok parts
    → o ≡ some parts
or_split-ok none e = absurd (ground (arith, e))
or_split-ok (some parts) e = ground (arith, e)

or_malformed-ok :
    (o : Option (List ℕ)) {bytes : List ℕ} → or_malformed o ≡ ok bytes → o ≡ some bytes
or_malformed-ok none e = absurd (ground (arith, e))
or_malformed-ok (some bytes) e = ground (arith, e)

-- The text of a token: its version, its payload and its signature, with a dot between them.
abbrev pub token_text : List ℕ → List ℕ → List ℕ
token_text payload signature = version_prefix ++ (payload ++ (b'.' ∷ signature))

token-parts :
    (token before after : List ℕ)
    → bytes_eq (take 14 token) version_prefix ≡ true
    → split_once b'.' (drop 14 token) ≡ some (before, after)
    → token ≡ token_text before after
token-parts token before after marked split =
    sym (take-append-drop 14 token)
    ∙ ap₂ ◌++◌ (bytes_eq→eq (take 14 token) version_prefix marked)
        (split_once_sound b'.' (drop 14 token) split).0

module _ (crypto : TokenCrypto) where
  -- A token is accepted only if it is its version, its payload and its signature in base64, with a dot
  -- between them, in at most 4096 bytes; the signature of 64 bytes, over the payload in the domain of
  -- the protocol, checks under the verifier's key; the payload decodes to the claims that are returned; and
  -- these are current.
  pub verify_for_replay_sound :
      (v : CapabilityVerifier) (token : List ℕ) (now : ℕ) {c : VerifiedCapability}
      → verify_for_replay crypto v token now ≡ ok c
      → (payload_text : List ℕ) × (signature_text : List ℕ) × (payload : List ℕ) × (signature : List
          ℕ)
        × (token ≡ token_text payload_text signature_text)
        × (length token ≤ 4096)
        × (crypto.b64_decode payload_text ≡ some payload)
        × (crypto.b64_decode signature_text ≡ some signature)
        × (length signature ≡ 64)
        × (crypto.verify v.public_key (signing_input payload) signature ≡ true)
        × (decode payload ≡ ok c.claims)
        × IsCurrent v now c
  unfolding verify_for_replay
  verify_for_replay_sound v token now {c} e =
      let (short, e1) = >>-eq-ok (reject_if (ltb max_token_len (length token)) malformed) _ e in
      let (marked, e2) =
        >>-eq-ok (reject_if (not (bytes_eq (take 14 token) version_prefix)) malformed) _ e1 in
      let (parts, halves, e3) = >>=-eq-ok (or_split (split_once b'.' (drop 14 token))) _ e2 in
      let (payload, first, e4) = >>=-eq-ok (or_malformed (crypto.b64_decode parts.0)) _ e3 in
      let (signature, second, e5) = >>=-eq-ok (or_malformed (crypto.b64_decode parts.1)) _ e4 in
      let (sized, e6) = >>-eq-ok (reject_if (not (length signature == 64)) malformed) _ e5 in
      let (signed, e7) =
        >>-eq-ok
          (reject_if (not (crypto.verify v.public_key (signing_input payload) signature))
            invalid_signature)
          _ e6 in
      let (claims, decoded, e8) = >>=-eq-ok (decode payload) _ e7 in
      let (same, current) = check_claims-IsCurrent v claims now e8 in
      (
        parts.0,
        parts.1,
        payload,
        signature,
        token-parts token parts.0 parts.1 (ground (arith, marked))
            (or_split-ok (split_once b'.' (drop 14 token)) halves),
        ground (arith, short),
        or_malformed-ok (crypto.b64_decode parts.0) first,
        or_malformed-ok (crypto.b64_decode parts.1) second,
        ground (arith, sized),
        ground (arith, signed),
        decoded ∙ ap ok (sym same),
        current,
      )
