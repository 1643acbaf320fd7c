-- ===== src/Transport/EnvelopePolicy/Wire.antt =====
-- The 127 bytes of an offer: `EnvelopeOffer::encode` and `EnvelopeOffer::decode`. `settings` are the bytes
-- from 41 on and `limits` those from 63 on.
use Prim.Native.Nat.{bit_and}
use shph.Prelude.{
  ℕ, zero, suc, ◌+◌, ◌%◌, ◌^◌, Bool, true, false, not, ◌&&◌, ◌||◌, Option, none, some, List, [],
  ◌∷◌, ◌++◌, length, get_or, take, drop, replicate, any, bytes_eq, ◌==◌, if◌then◌else◌, Result, ok,
  err, ◌>>=◌, ◌>>◌, reject_if, ShphError, protocol,
}
use shph.Prelude.Bytes.{be_bytes, be_value}
use shph.Obfuscation.{ProfileTier, medium, id, from_id}
use shph.Transport.Cover
use shph.Transport.Cover.{CoverPolicy}
use shph.Transport.PhantomOne
use shph.Transport.PhantomOne.{
  PhantomOneConfig, SizeSelection, first_fit, weighted, with_profile, with_selection,
  with_padding_budget, validate_path_mtu,
}
use shph.Transport.PhantomOne.Wire.{field}
use shph.Transport.EnvelopePolicy.{FrameBudget, validate_budget}
use shph.Transport.EnvelopePolicy.Offer.{EnvelopeOffer, profile_config}

abbrev pub policy_magic : List ℕ
policy_magic = b'S' ∷ b'H' ∷ b'P' ∷ b'H' ∷ b'-' ∷ b'P' ∷ b'O' ∷ b'L' ∷ 2 ∷ []

abbrev pub offer_bytes : ℕ
offer_bytes = 127

-- `!PROFILE_MASK`
abbrev pub unknown_profiles : ℕ
unknown_profiles = 192

-- `u8::from(flag)`
abbrev pub flag_byte : Bool → ℕ
flag_byte true = 1
flag_byte false = 0

unfoldable pub weight_bytes : List ℕ → List ℕ
weight_bytes [] = []
weight_bytes (weight ∷ weights) = be_bytes 2 weight ++ weight_bytes weights

unfoldable pub selection_bytes : SizeSelection → List ℕ
selection_bytes first_fit = 0 ∷ weight_bytes (replicate 7 0)
selection_bytes (weighted weights) = 1 ∷ weight_bytes weights

abbrev pub padding_budget_bytes : Option ℕ → List ℕ
padding_budget_bytes none = 0 ∷ be_bytes 8 0
padding_budget_bytes (some bytes) = 1 ∷ be_bytes 8 bytes

abbrev pub budget_bytes : FrameBudget → List ℕ
budget_bytes b = be_bytes 8 b.max_frames ++ be_bytes 8 b.max_payload_bytes

unfoldable pub cover_bytes : Option CoverPolicy → List ℕ
cover_bytes none = replicate 19 0
cover_bytes (some p) =
    1
    ∷ (be_bytes 4 p.interval_ms
        ++ be_bytes 4 p.idle_timeout_ms
        ++ be_bytes 8 p.maximum_bytes
        ++ be_bytes 2 p.overhead_percent)

-- The bytes from the profile to the bounds of the padding, and those behind the selection.
unfoldable pub settings_bytes : EnvelopeOffer → List ℕ
settings_bytes o =
    (id o.config.profile ∷ o.supported_profiles ∷ flag_byte o.config.profile_bound ∷ [])
    ++ be_bytes 2 (o.config.min_padding % 2 ^ 16)
    ++ be_bytes 2 (o.config.max_padding % 2 ^ 16)

unfoldable pub directions_bytes : EnvelopeOffer → List ℕ
directions_bytes o =
    be_bytes 2 o.outbound_frame_limit
    ++ be_bytes 2 o.inbound_frame_limit
    ++ budget_bytes o.outbound_budget
    ++ budget_bytes o.inbound_budget
    ++ cover_bytes o.cover

unfoldable pub limits_bytes : EnvelopeOffer → List ℕ
limits_bytes o = padding_budget_bytes o.config.padding_budget ++ directions_bytes o

unfoldable pub encode : EnvelopeOffer → List ℕ
encode o =
    policy_magic
    ++ (o.binding ++ (settings_bytes o ++ (selection_bytes o.config.selection ++ limits_bytes o)))

abbrev pub known_profile : Option ProfileTier → Result ShphError ProfileTier
known_profile none = err (protocol "unknown policy profile")
known_profile (some tier) = ok tier

unfoldable pub bound_at : ℕ → ProfileTier → PhantomOneConfig → Result ShphError PhantomOneConfig
bound_at flag tier c =
    if flag == 0 && id tier == id medium
    then ok c
    else if flag == 1
    then ok (with_profile c tier)
    else err (protocol "noncanonical profile binding")

unfoldable pub weights_at : ℕ → List ℕ → List ℕ
weights_at zero bytes = []
weights_at (suc n) bytes = be_value (take 2 bytes) ∷ weights_at n (drop 2 bytes)

unfoldable pub selection_at : ℕ → List ℕ → Result ShphError SizeSelection
selection_at tag weights =
    if tag == 0 && bytes_eq weights (replicate 7 0)
    then ok first_fit
    else if tag == 1
    then ok (weighted weights)
    else err (protocol "invalid policy selection")

unfoldable pub padding_budget_at : ℕ → ℕ → PhantomOneConfig → Result ShphError PhantomOneConfig
padding_budget_at flag bytes c =
    if flag == 0 && bytes == 0
    then ok c
    else if flag == 1
    then ok (with_padding_budget c bytes)
    else err (protocol "invalid padding budget encoding")

abbrev pub budget_at : List ℕ → ℕ → FrameBudget
budget_at limits start = record {
  max_frames = field limits start 8;
  max_payload_bytes = field limits (start + 8) 8;
}

-- Each supported profile has a valid configuration.
unfoldable pub check_profiles : PhantomOneConfig → ℕ → List ℕ → Result ShphError (Unit {0})
check_profiles c mask [] = ok tt
check_profiles c mask (k ∷ ks) =
    let rest = check_profiles c mask ks in
    if bit_and mask (2 ^ k) == 0
    then rest
    else known_profile (from_id k) >>= λ tier. (profile_config c tier >>= λ _. rest)

abbrev pub stated_cover : List ℕ → CoverPolicy
stated_cover cover = record {
  interval_ms = field cover 1 4;
  idle_timeout_ms = field cover 5 4;
  maximum_bytes = field cover 9 8;
  overhead_percent = field cover 17 2;
}

-- The bytes from 108 on.
unfoldable pub cover_at : List ℕ → Result ShphError (Option CoverPolicy)
cover_at cover =
    if get_or cover 0 0 == 0 && not (any (λ byte. not (byte == 0)) (drop 1 cover))
    then ok none
    else if get_or cover 0 0 == 1
    then Cover.validate (stated_cover cover) >> ok (some (stated_cover cover))
    else err (protocol "invalid cover policy encoding")

unfoldable pub decode : List ℕ → Result ShphError EnvelopeOffer
decode bytes = do
  reject_if (not (length bytes == offer_bytes) || not (bytes_eq (take 9 bytes) policy_magic))
      (protocol "unsupported or malformed envelope policy")
  let settings = drop 41 bytes
  let limits = drop 63 bytes
  tier ← known_profile (from_id (get_or settings 0 0))
  let supported = get_or settings 1 0
  reject_if
      (supported == 0
        || not (bit_and supported unknown_profiles == 0)
        || bit_and supported (2 ^ id tier) == 0)
      (protocol "invalid supported-profile set")
  plain ← PhantomOne.new (field settings 3 2) (field settings 5 2)
  tiered ← bound_at (get_or settings 2 0) tier plain
  choice ← selection_at (get_or settings 7 0) (weights_at 7 (drop 8 settings))
  selected ← with_selection tiered choice
  c ← padding_budget_at (get_or limits 0 0) (field limits 1 8) selected
  validate_path_mtu (field limits 9 2)
  validate_path_mtu (field limits 11 2)
  validate_budget (budget_at limits 13)
  validate_budget (budget_at limits 29)
  check_profiles c supported (0 ∷ 1 ∷ 2 ∷ 3 ∷ 4 ∷ 5 ∷ [])
  cover ← cover_at (drop 45 limits)
  ok (record {
    binding = take 32 (drop 9 bytes);
    supported_profiles = supported;
    config = c;
    outbound_frame_limit = field limits 9 2;
    inbound_frame_limit = field limits 11 2;
    outbound_budget = budget_at limits 13;
    inbound_budget = budget_at limits 29;
    cover = cover;
  })
