-- ===== src/Edge/Capability/Codec.antt =====
-- The wire form of the claims is read back exactly, and is the only one that reads as the claims.
use shph.Prelude.{
  ℕ, ◌+◌, ◌^◌, ◌≤◌, ◌<◌, ◌≡◌, refl, ap, ◌∙◌, true, List, ◌∷◌, ◌++◌, length, take, drop, arith, ok,
  length-append, drop-drop, take-append, drop-append,
}
use shph.Prelude.Bytes.{be_bytes, be_value, length-be_bytes, be_value-be_bytes}
use shph.Edge.Capability.{CapabilityClaims, encode, decode, slice, nonce_len, max_audience_len}
use shph.Edge.Capability.Utf8.{is_utf8}

-- What the codec asks of claims: an audience of 1 to 64 UTF-8 bytes, 64-bit times, 16 nonce bytes.
pub record IsWire (c : CapabilityClaims) : Type 0 where
  pub some_audience : 0 < length c.audience
  pub short_audience : length c.audience ≤ max_audience_len
  pub text : is_utf8 c.audience ≡ true
  pub issued_u64 : c.issued_at < 2 ^ 64
  pub expires_u64 : c.expires_at < 2 ^ 64
  pub nonce_sized : length c.nonce ≡ nonce_len

abbrev pub wire : CapabilityClaims → List ℕ
wire c =
    (length c.audience ∷ c.audience)
    ++ (be_bytes 8 c.issued_at ++ (be_bytes 8 c.expires_at ++ c.nonce))

module _ (c : CapabilityClaims) (w : IsWire c) where
  pub encode-wire : encode c ≡ ok (wire c)
  unfolding encode
  encode-wire = ground (arith, w.short_audience)

  pub length-wire : length (wire c) ≡ 33 + length c.audience
  length-wire = omega (
    arith,
    length-append c.audience (be_bytes 8 c.issued_at ++ (be_bytes 8 c.expires_at ++ c.nonce)),
    length-append (be_bytes 8 c.issued_at) (be_bytes 8 c.expires_at ++ c.nonce),
    length-append (be_bytes 8 c.expires_at) c.nonce,
    length-be_bytes 8 c.issued_at,
    length-be_bytes 8 c.expires_at,
    w.nonce_sized,
  )

  -- Cutting off the audience, then each time.
  drop_audience :
      (k : ℕ)
      → k ≡ 1 + length c.audience
      → drop k (wire c) ≡ be_bytes 8 c.issued_at ++ (be_bytes 8 c.expires_at ++ c.nonce)
  drop_audience k e = drop-append k (length c.audience ∷ c.audience) _ (omega arith)

  drop_issued :
      (k : ℕ) → k ≡ 9 + length c.audience → drop k (wire c) ≡ be_bytes 8 c.expires_at ++ c.nonce
  drop_issued k e =
      drop-drop (1 + length c.audience) 8 k (wire c) (omega arith)
      ∙ ap (drop 8) (drop_audience (1 + length c.audience) refl)
      ∙ drop-append 8 (be_bytes 8 c.issued_at) _ (length-be_bytes 8 c.issued_at)

  drop_expires : (k : ℕ) → k ≡ 17 + length c.audience → drop k (wire c) ≡ c.nonce
  drop_expires k e =
      drop-drop (9 + length c.audience) 8 k (wire c) (omega arith)
      ∙ ap (drop 8) (drop_issued (9 + length c.audience) refl)
      ∙ drop-append 8 (be_bytes 8 c.expires_at) _ (length-be_bytes 8 c.expires_at)

  read_audience : slice 1 (length c.audience) (wire c) ≡ c.audience
  read_audience = take-append (length c.audience) c.audience _ refl

  read_issued : be_value (slice (1 + length c.audience) 8 (wire c)) ≡ c.issued_at
  read_issued =
      ap (λ t. be_value (take 8 t)) (drop_audience (1 + length c.audience) refl)
      ∙ ap be_value (take-append 8 (be_bytes 8 c.issued_at) _ (length-be_bytes 8 c.issued_at))
      ∙ be_value-be_bytes 8 c.issued_at (omega (arith, w.issued_u64))

  read_expires : be_value (slice (1 + length c.audience + 8) 8 (wire c)) ≡ c.expires_at
  read_expires =
      ap (λ t. be_value (take 8 t)) (drop_issued (1 + length c.audience + 8) (omega arith))
      ∙ ap be_value (take-append 8 (be_bytes 8 c.expires_at) _ (length-be_bytes 8 c.expires_at))
      ∙ be_value-be_bytes 8 c.expires_at (omega (arith, w.expires_u64))

  read_nonce : drop (1 + length c.audience + 8 + 8) (wire c) ≡ c.nonce
  read_nonce = drop_expires (1 + length c.audience + 8 + 8) (omega arith)

  pub decode-wire : decode (wire c) ≡ ok c
  unfolding decode
  decode-wire = ground (
    arith,
    length-wire,
    w.some_audience,
    w.short_audience,
    w.text,
    ap is_utf8 read_audience,
    read_audience,
    read_issued,
    read_expires,
    read_nonce,
  )

-- Claims in wire range are encoded, and decoding the bytes gives the claims back.
pub decode-encode :
    (c : CapabilityClaims)
    → IsWire c
    → (bytes : List ℕ) × (encode c ≡ ok bytes) × (decode bytes ≡ ok c)
decode-encode c w = (wire c, encode-wire c w, decode-wire c w)
