-- ===== src/Edge/Capability/Tests.antt =====
-- The wire form of one set of claims.
use shph.Prelude.{ℕ, ◌≡◌, refl, List, [], ◌∷◌, replicate, arith, ok}
use shph.Edge.Capability.{CapabilityClaims, encode, decode}
use shph.Edge.Capability.Utf8.{is_utf8-ascii}
use shph.Edge.Capability.Codec.{IsWire, decode-encode}

abbrev edge_a : CapabilityClaims
edge_a = record {
  audience = b'e' ∷ b'd' ∷ b'g' ∷ b'e' ∷ [];
  issued_at = 100;
  expires_at = 120;
  nonce = replicate 16 7;
}

edge_a-IsWire : IsWire edge_a
edge_a-IsWire = record {
  some_audience = omega arith;
  short_audience = omega arith;
  text =
      is_utf8-ascii (b'e' ∷ b'd' ∷ b'g' ∷ b'e' ∷ [])
        (omega arith, (omega arith, (omega arith, (omega arith, tt))));
  issued_u64 = omega arith;
  expires_u64 = omega arith;
  nonce_sized = refl;
}

decode-encode_example : (bytes : List ℕ) × (encode edge_a ≡ ok bytes) × (decode bytes ≡ ok edge_a)
decode-encode_example = decode-encode edge_a edge_a-IsWire
