-- ===== src/Edge/Token/Tests.antt =====
-- The token theorems with toy signatures, and with hexadecimal letters for base64.
use shph.Prelude.{
  ℕ, zero, suc, ◌+◌, ◌-◌, ◌*◌, ◌/◌, ◌%◌, ◌≤◌, ◌≡◌, refl, ap₂, true, false, Option, none, some, List,
  [], ◌∷◌, ◌++◌, length, any, replicate, All, bytes_eq, bytes_eq_refl, length-replicate, ◌==◌,
  arith, ok,
}
use shph.Prelude.Bytes.{IsByte}
use shph.Edge.Capability.{CapabilityClaims, decode, validate_shape, encode}
use shph.Edge.Capability.Codec.{wire}
use shph.Edge.ReplayCache.{VerifiedCapability}
use shph.Edge.Token.{
  TokenCrypto, CapabilityIssuer, CapabilityVerifier, signing_input, issue, verify_for_replay,
  version_prefix,
}
use shph.Edge.Token.Issue.{IsTyped, verify_for_replay-issue}
use shph.Edge.Token.Sound.{token_text, IsCurrent, verify_for_replay_sound}

abbrev letters : List ℕ → List ℕ
letters [] = []
letters (b ∷ bs) = (100 + b / 16) ∷ (100 + b % 16) ∷ letters bs

abbrev push : ℕ → Option (List ℕ) → Option (List ℕ)
push b none = none
push b (some bs) = some (b ∷ bs)

abbrev unletters : List ℕ → Option (List ℕ)
unletters [] = some []
unletters (h ∷ []) = none
unletters (h ∷ l ∷ rest) = push ((h - 100) * 16 + (l - 100)) (unletters rest)

unletters-letters : (bytes : List ℕ) → All IsByte bytes → unletters (letters bytes) ≡ some bytes
unletters-letters [] h = refl
unletters-letters (b ∷ bs) h =
    let same : (100 + b / 16 - 100) * 16 + (100 + b % 16 - 100) ≡ b = omega arith in
    ap₂ push same (unletters-letters bs h.1)

letters_no_dot : (bytes : List ℕ) → any (λ b. b == b'.') (letters bytes) ≡ false
letters_no_dot [] = refl
letters_no_dot (b ∷ bs) = ground (arith, letters_no_dot bs)

length-letters : (bytes : List ℕ) → length (letters bytes) ≤ 2 * length bytes
length-letters [] = omega arith
length-letters (b ∷ bs) = omega (arith, length-letters bs)

replicate-IsByte : (n b : ℕ) → IsByte b → All IsByte (replicate n b)
replicate-IsByte zero b h = tt
replicate-IsByte (suc n) b h = (h, replicate-IsByte n b h)

abbrev toy_sign : List ℕ → List ℕ → List ℕ
toy_sign key message = replicate 64 (length message % 256)

abbrev toy : TokenCrypto
toy = record {
  public_key = λ key. key;
  sign = toy_sign;
  verify = λ key message signature. bytes_eq signature (toy_sign key message);
  b64_encode = letters;
  b64_decode = unletters;
  verify-sign = λ key message. bytes_eq_refl (toy_sign key message);
  length-sign = λ key message. length-replicate {A = ℕ} 64 (length message % 256);
  sign-bytes = λ key message. replicate-IsByte 64 (length message % 256) (omega arith);
  decode-encode = unletters-letters;
  encode_no_dot = letters_no_dot;
  length-encode = length-letters;
}

abbrev edge_a : CapabilityClaims
edge_a = record { audience = b'e' ∷ []; issued_at = 100; expires_at = 120; nonce = replicate 16 7 }

abbrev issuer : CapabilityIssuer
issuer = record { key_pair = 1 ∷ []; max_lifetime = 60000000000 }

abbrev verifier : CapabilityVerifier
verifier = record {
  public_key = 1 ∷ [];
  audience = b'e' ∷ [];
  max_lifetime = 60000000000;
  clock_skew = 5000000000;
}

abbrev token : List ℕ
token =
    version_prefix
    ++ (letters (wire edge_a) ++ (b'.' ∷ letters (toy_sign (1 ∷ []) (signing_input (wire edge_a)))))

abbrev accepted : VerifiedCapability
accepted = record { claims = edge_a; valid_from = 95; replay_expires_at = 125 }

edge_a-IsTyped : IsTyped edge_a
edge_a-IsTyped = record {
  issued_u64 = omega arith;
  expires_u64 = omega arith;
  nonce_sized = refl;
  nonce_bytes = replicate-IsByte 16 7 (omega arith);
}

issue-token : issue toy issuer edge_a ≡ ok token
unfolding issue validate_shape encode
issue-token = refl

verify_for_replay-issue_example : verify_for_replay toy verifier token 110 ≡ ok accepted
verify_for_replay-issue_example =
    verify_for_replay-issue toy issuer verifier edge_a 110 edge_a-IsTyped issue-token refl refl
      (omega arith) (omega arith) (omega arith)

verify_for_replay_sound_example :
    (payload_text : List ℕ) × (signature_text : List ℕ) × (payload : List ℕ) × (signature : List ℕ)
    × (token ≡ token_text payload_text signature_text)
    × (length token ≤ 4096)
    × (toy.b64_decode payload_text ≡ some payload)
    × (toy.b64_decode signature_text ≡ some signature)
    × (length signature ≡ 64)
    × (toy.verify (1 ∷ []) (signing_input payload) signature ≡ true)
    × (decode payload ≡ ok edge_a)
    × IsCurrent verifier 110 accepted
verify_for_replay_sound_example =
    verify_for_replay_sound toy verifier token 110 verify_for_replay-issue_example
