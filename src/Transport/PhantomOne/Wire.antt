-- ===== src/Transport/PhantomOne/Wire.antt =====
-- The header read back: `decode_parts`, the frame it describes and the stateless `decode`.
use shph.Prelude.{
  ℕ, ◌+◌, ◌-◌, not, ◌&&◌, ◌||◌, Option, none, some, List, [], ◌∷◌, length, get_or, take, drop, any,
  bytes_eq, ltb, ◌==◌, Result, ok, err, ◌>>=◌, ◌>>◌, reject_if, ShphError, protocol,
}
use shph.Prelude.Bytes.{be_value}
use shph.Obfuscation.{ProfileTier, id, from_id, accepts_frame_len}
use shph.Transport.PhantomOne.{
  PhantomOneConfig, PhantomOneFrameType, PhantomOneFrame, magic, version, header_bytes,
  frame_type_try_from, max_padding_bytes, unbound_config, validate, validate_path_mtu,
  validate_payload_length,
}

pub record DecodedPhantomOneParts : Type 0 where
  pub profile : ProfileTier
  pub generation : ℕ
  pub frame_type : PhantomOneFrameType
  pub sequence : ℕ
  pub payload_len : ℕ
  pub target_len : ℕ
  pub padding_len : ℕ
  pub payload_end : ℕ

unfoldable pub to_frame : DecodedPhantomOneParts → List ℕ → PhantomOneFrame
to_frame parts datagram = record {
  profile = parts.profile;
  generation = parts.generation;
  frame_type = parts.frame_type;
  sequence = parts.sequence;
  payload = take (parts.payload_end - header_bytes) (drop header_bytes datagram);
  target_len = parts.target_len;
  padding_len = parts.padding_len;
}

-- `from_be_bytes` of the bytes from `start` on; the length is checked before.
abbrev pub field : List ℕ → ℕ → ℕ → ℕ
field datagram start n = be_value (take n (drop start datagram))

abbrev pub known_profile : Option ProfileTier → Result ShphError ProfileTier
known_profile none = err (protocol "Phantom One profile identifier is unsupported")
known_profile (some tier) = ok tier

unfoldable pub decode_parts :
    List ℕ → ℕ → ℕ → PhantomOneConfig → Result ShphError DecodedPhantomOneParts
decode_parts datagram expected_generation path_mtu c = do
  validate c
  validate_path_mtu path_mtu
  reject_if (ltb (length datagram) header_bytes || ltb path_mtu (length datagram))
      (protocol "Phantom One datagram length is outside path-MTU bounds")
  reject_if (not (bytes_eq (take 4 datagram) magic)) (protocol "Phantom One magic mismatch")
  reject_if (not (get_or datagram 4 0 == version)) (protocol "Phantom One version mismatch")
  tier ← known_profile (from_id (get_or datagram 5 0))
  reject_if (not (id tier == id c.profile))
      (protocol "Phantom One profile does not match session policy")
  let generation = field datagram 6 4
  reject_if (not (generation == expected_generation)) (protocol "Phantom One generation mismatch")
  frame_type ← frame_type_try_from (get_or datagram 10 0)
  let sequence = field datagram 11 8
  let payload_len = field datagram 19 2
  let target_len = field datagram 21 2
  reject_if (any (λ byte. not (byte == 0)) (take 1 (drop 23 datagram)))
      (protocol "Phantom One reserved header bytes are non-canonical")
  reject_if (not (target_len == length datagram))
      (protocol "Phantom One target length does not match datagram length")
  reject_if (ltb path_mtu target_len) (protocol "Phantom One target length exceeds path MTU")
  validate_payload_length payload_len
  let payload_end = header_bytes + payload_len
  reject_if (ltb target_len payload_end)
      (protocol "Phantom One payload is truncated by target length")
  let padding_len = target_len - payload_end
  reject_if (ltb padding_len c.min_padding || ltb c.max_padding padding_len)
      (protocol "Phantom One padding is outside the configured bounds")
  reject_if (c.profile_bound && not (accepts_frame_len tier target_len))
      (protocol "Phantom One target is outside the selected profile's canonical size classes")
  ok (record {
    profile = tier;
    generation = generation;
    frame_type = frame_type;
    sequence = sequence;
    payload_len = payload_len;
    target_len = target_len;
    padding_len = padding_len;
    payload_end = payload_end;
  })

-- One frame without replay tracking.
unfoldable pub decode_stateless : List ℕ → ℕ → ℕ → Result ShphError PhantomOneFrame
decode_stateless datagram expected_generation path_mtu = do
  tier ← known_profile (profile_at (drop 5 datagram))
  parts ←
      decode_parts datagram expected_generation path_mtu (unbound_config tier 0 max_padding_bytes)
  ok (to_frame parts datagram)
  where
    -- `datagram.get(PROFILE_OFFSET).and_then(from_id)`
    profile_at : List ℕ → Option ProfileTier
    profile_at [] = none
    profile_at (byte ∷ _) = from_id byte
