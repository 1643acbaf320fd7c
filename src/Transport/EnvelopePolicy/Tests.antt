-- ===== src/Transport/EnvelopePolicy/Tests.antt =====
-- The agreement of two peers that prefer different profiles.
use shph.Prelude.{
  arith, ℕ, List, ◌≤◌, ◌≡◌, refl, true, false, none, some, [], ◌∷◌, length, replicate, ok,
}
use shph.Obfuscation.{ProfileTier, low, medium, high, from_id}
use shph.Transport.PhantomOne.{
  for_profile, validate, check_selection, with_profile, validate_path_mtu,
}
use shph.Transport.EnvelopePolicy.{default_budget, no_usage, reserve, validate_budget}
use shph.Transport.EnvelopePolicy.Offer.{EnvelopeOffer, hex_byte, profile_config, hex_digit}
use shph.Transport.EnvelopePolicy.Negotiate.{
  NegotiatedPolicy, negotiate, precedes, offered, common_profile, same_policy_settings, best_of,
}
use shph.Transport.EnvelopePolicy.Offered.{supports}
use shph.Transport.EnvelopePolicy.Usage.{reserve_all, granted, total, usage_accounts}
use shph.Transport.EnvelopePolicy.Mirrors.{mirror, negotiate-mirrors, negotiate_prefers}
use shph.Transport.EnvelopePolicy.Wire.{
  encode, decode, check_profiles, directions_bytes, weight_bytes, cover_bytes, settings_bytes,
  limits_bytes, selection_bytes,
}
use shph.Transport.EnvelopePolicy.Blocks.{IsOffer}
use shph.Transport.EnvelopePolicy.RoundTrip.{decode-encode_offer}
use shph.Transport.EnvelopePolicy.Acknowledgement.{
  acknowledgement, acknowledgement_agrees, ack_message, ack_bytes,
}

-- Low and medium, medium preferred, with 1200 bytes out and 1400 in.
abbrev client : EnvelopeOffer
client = record {
  binding = replicate 32 5;
  supported_profiles = 3;
  config = for_profile medium;
  outbound_frame_limit = 1200;
  inbound_frame_limit = 1400;
  outbound_budget = default_budget;
  inbound_budget = default_budget;
  cover = none;
}

-- Low and high, high preferred.
abbrev server : EnvelopeOffer
server = record client {
  supported_profiles = 5;
  config = for_profile high;
  outbound_frame_limit = 1300;
  inbound_frame_limit = 1000;
  inbound_budget = record { max_frames = 10; max_payload_bytes = 1000 };
}

abbrev agreed : NegotiatedPolicy
agreed = record {
  config = for_profile low;
  outbound_frame_limit = 1000;
  inbound_frame_limit = 1300;
  outbound_budget = record { max_frames = 10; max_payload_bytes = 1000 };
  inbound_budget = default_budget;
}

negotiate-mirrors_example : negotiate server client ≡ ok (mirror agreed)
unfolding negotiate same_policy_settings common_profile best_of offered from_id profile_config
    validate check_selection with_profile
negotiate-mirrors_example = negotiate-mirrors client server {p = agreed} refl

negotiate_prefers_example :
    (supports 3 low ≡ true)
    × (supports 5 low ≡ true)
    × ((tier : ProfileTier)
        → supports 3 tier ≡ true
        → supports 5 tier ≡ true
        → precedes medium high tier low ≡ false)
unfolding negotiate same_policy_settings common_profile best_of offered from_id profile_config
    validate check_selection with_profile
negotiate_prefers_example = negotiate_prefers client server {p = agreed} refl

usage_accounts_example :
    ((reserve_all no_usage agreed.outbound_budget (700 ∷ 400 ∷ 300 ∷ [])).frames
      ≡ length (granted no_usage agreed.outbound_budget (700 ∷ 400 ∷ 300 ∷ [])))
    × ((reserve_all no_usage agreed.outbound_budget (700 ∷ 400 ∷ 300 ∷ [])).payload_bytes
        ≡ total (granted no_usage agreed.outbound_budget (700 ∷ 400 ∷ 300 ∷ [])))
    × (length (granted no_usage agreed.outbound_budget (700 ∷ 400 ∷ 300 ∷ [])) ≤ 10)
    × (total (granted no_usage agreed.outbound_budget (700 ∷ 400 ∷ 300 ∷ [])) ≤ 1000)
usage_accounts_example = usage_accounts agreed.outbound_budget (700 ∷ 400 ∷ 300 ∷ [])

-- The second request does not fit the payload budget, the third does.
two_granted : granted no_usage agreed.outbound_budget (700 ∷ 400 ∷ 300 ∷ []) ≡ 700 ∷ 300 ∷ []
unfolding granted reserve
two_granted = refl

-- A sign is taken for a digit, as the library's number parser does.
signed_byte : hex_byte b'+' b'f' ≡ some 15
unfolding hex_byte hex_digit
signed_byte = refl

client-IsOffer : IsOffer client
unfolding validate check_selection validate_path_mtu validate_budget check_profiles from_id
    profile_config with_profile
client-IsOffer = record {
  bound = refl;
  some_profile = refl;
  known = refl;
  own = refl;
  unbound = λ h. ground arith;
  valid = refl;
  choice = tt;
  budget = λ b h. ground arith;
  outbound = refl;
  inbound = refl;
  spending = refl;
  earning = refl;
  profiles = refl;
  covered = refl;
}

server-IsOffer : IsOffer server
unfolding validate check_selection validate_path_mtu validate_budget check_profiles from_id
    profile_config with_profile
server-IsOffer = record {
  bound = refl;
  some_profile = refl;
  known = refl;
  own = refl;
  unbound = λ h. ground arith;
  valid = refl;
  choice = tt;
  budget = λ b h. ground arith;
  outbound = refl;
  inbound = refl;
  spending = refl;
  earning = refl;
  profiles = refl;
  covered = refl;
}

decode-encode_offer_example : (length (encode server) ≡ 127) × (decode (encode server) ≡ ok server)
decode-encode_offer_example = decode-encode_offer server server-IsOffer

-- Stands for the hash: the number of bytes hashed.
abbrev counted_bytes : List ℕ → List ℕ
counted_bytes bytes = length bytes ∷ []

acknowledgement_agrees_example : acknowledgement counted_bytes server client ≡ ok (310 ∷ [])
unfolding acknowledgement negotiate same_policy_settings common_profile best_of offered from_id
    profile_config validate check_selection with_profile ack_message encode settings_bytes ack_bytes
    selection_bytes weight_bytes limits_bytes directions_bytes cover_bytes
    shph.Prelude.Bytes.be_bytes
acknowledgement_agrees_example =
    acknowledgement_agrees counted_bytes client server {hash = 310 ∷ []} client-IsOffer
      server-IsOffer refl
