-- ===== src/Transport/EnvelopePolicy/Offer.antt =====
-- `EnvelopeOffer`: its construction from a transcript hash and its refinements. The transcript is the
-- list of its bytes; an encoder can be made from a configuration exactly when that is valid.
use Prim.Native.Nat.{bit_and, bit_or}
use shph.Prelude.{
  ℕ, ◌+◌, ◌-◌, ◌*◌, ◌^◌, not, ◌&&◌, ◌||◌, Option, none, some, List, [], ◌∷◌, length, any, ltb, leb,
  ◌==◌, if◌then◌else◌, Result, ok, err, ◌>>=◌, ◌>>◌, reject_if, ShphError, protocol,
}
use shph.Obfuscation.{ProfileTier, id}
use shph.Transport.Cover.{CoverPolicy}
use shph.Transport.Cover
use shph.Transport.PhantomOne.{PhantomOneConfig, validate, validate_path_mtu, with_profile}
use shph.Transport.EnvelopePolicy.{FrameBudget, validate_budget, default_budget}

pub record EnvelopeOffer : Type 0 where
  pub binding : List ℕ
  pub supported_profiles : ℕ
  pub config : PhantomOneConfig
  pub outbound_frame_limit : ℕ
  pub inbound_frame_limit : ℕ
  pub outbound_budget : FrameBudget
  pub inbound_budget : FrameBudget
  pub cover : Option CoverPolicy

-- A hexadecimal digit.
unfoldable pub hex_digit : ℕ → Option ℕ
hex_digit c =
    if leb b'0' c && leb c b'9'
    then some (c - b'0')
    else if leb b'a' c && leb c b'f'
    then some (c - b'a' + 10)
    else if leb b'A' c && leb c b'F'
    then some (c - b'A' + 10)
    else none

abbrev pub joined : Option ℕ → Option ℕ → Option ℕ
joined (some high) (some low) = some (16 * high + low)
joined _ _ = none

-- `u8::from_str_radix` of two characters; it lets a sign stand before a digit.
unfoldable pub hex_byte : ℕ → ℕ → Option ℕ
hex_byte first second =
    if first == b'+' then hex_digit second else joined (hex_digit first) (hex_digit second)

abbrev pub consed : Option ℕ → Result ShphError (List ℕ) → Result ShphError (List ℕ)
consed none rest = err (protocol "invalid transcript hash")
consed (some byte) (ok bytes) = ok (byte ∷ bytes)
consed (some byte) (err why) = err why

unfoldable pub hex_bytes : List ℕ → Result ShphError (List ℕ)
hex_bytes (first ∷ second ∷ rest) = consed (hex_byte first second) (hex_bytes rest)
hex_bytes _ = ok []

unfoldable pub parse_binding : List ℕ → Result ShphError (List ℕ)
parse_binding transcript_hex = do
  reject_if (not (length transcript_hex == 64) || any (λ c. leb 128 c) transcript_hex)
      (protocol "policy requires a 32-byte transcript hash")
  hex_bytes transcript_hex

unfoldable pub new : List ℕ → PhantomOneConfig → ℕ → Result ShphError EnvelopeOffer
new transcript_hex c frame_limit = do
  binding ← parse_binding transcript_hex
  validate_path_mtu frame_limit
  validate c
  ok (record {
    binding = binding;
    supported_profiles = 2 ^ id c.profile;
    config = c;
    outbound_frame_limit = frame_limit;
    inbound_frame_limit = frame_limit;
    outbound_budget = default_budget;
    inbound_budget = default_budget;
    cover = none;
  })

abbrev pub checked_config : PhantomOneConfig → Result ShphError PhantomOneConfig
checked_config candidate = validate candidate >> ok candidate

unfoldable pub profile_config : PhantomOneConfig → ProfileTier → Result ShphError PhantomOneConfig
profile_config c tier =
    if c.profile_bound
    then checked_config (with_profile c tier)
    else if id c.profile == id tier
    then checked_config c
    else err (protocol "unbound envelope policy supports only its configured profile")

-- The loop over the profiles: none twice, each with a valid configuration.
unfoldable pub mask_of : PhantomOneConfig → ℕ → List ProfileTier → Result ShphError ℕ
mask_of c mask [] = ok mask
mask_of c mask (tier ∷ tiers) =
    let rest = mask_of c (bit_or mask (2 ^ id tier)) tiers in
    reject_if (not (bit_and mask (2 ^ id tier) == 0))
      (protocol "duplicate supported policy profile")
    >> (profile_config c tier >>= λ _. rest)

unfoldable pub with_supported_profiles :
    EnvelopeOffer → List ProfileTier → Result ShphError EnvelopeOffer
with_supported_profiles o tiers = do
  reject_if (length tiers == 0 || ltb 6 (length tiers))
      (protocol "policy must advertise 1..6 supported profiles")
  mask ← mask_of o.config 0 tiers
  reject_if (bit_and mask (2 ^ id o.config.profile) == 0)
      (protocol "supported profiles omit the preferred profile")
  reject_if (not o.config.profile_bound && not (mask == 2 ^ id o.config.profile))
      (protocol "multiple profiles require a profile-bound envelope configuration")
  ok (record o { supported_profiles = mask })

unfoldable pub with_directional_limits : EnvelopeOffer → ℕ → ℕ → Result ShphError EnvelopeOffer
with_directional_limits o outbound inbound = do
  validate_path_mtu outbound
  validate_path_mtu inbound
  reject_if (ltb 65535 outbound) (protocol "outbound frame limit is too large")
  reject_if (ltb 65535 inbound) (protocol "inbound frame limit is too large")
  ok (record o { outbound_frame_limit = outbound; inbound_frame_limit = inbound })

unfoldable pub with_directional_budgets :
    EnvelopeOffer → FrameBudget → FrameBudget → Result ShphError EnvelopeOffer
with_directional_budgets o outbound inbound = do
  validate_budget outbound
  validate_budget inbound
  ok (record o { outbound_budget = outbound; inbound_budget = inbound })

abbrev pub validate_cover : Option CoverPolicy → Result ShphError (Unit {0})
validate_cover none = ok tt
validate_cover (some policy) = Cover.validate policy

unfoldable pub with_cover : EnvelopeOffer → Option CoverPolicy → Result ShphError EnvelopeOffer
with_cover o cover = do validate_cover cover; ok (record o { cover = cover })
