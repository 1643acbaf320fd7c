-- ===== src/Transport/PhantomOne.antt =====
-- shph-transport/src/phantom_one.rs: the inner envelope. This file holds its constants, its
-- configuration and the frame; the children hold the encoder and the decoder. A `usize` is 64 bits.
pub mod Encoder
pub mod Envelope
pub mod Wire
pub mod Decoder
pub mod Target
pub mod Selected
pub mod Encoding
pub mod RoundTrip
pub mod Bitmap
pub mod Replay
pub mod Once
pub mod Reach
pub mod Session
pub mod Delivery
pub mod Progress
pub mod Writes
mod Tests
use shph.Prelude.{
  ℕ, ◌+◌, ◌-◌, ◌^◌, ◌≤◌, Bool, true, false, not, ◌&&◌, ◌||◌, ◌≡◌, Option, none, some, List, [], ◌∷◌,
  length, take, drop, any, ltb, leb, ◌==◌, if◌then◌else◌, Result, ok, err, ◌>>=◌, ◌>>◌, reject_if,
  ShphError, config, protocol,
}
use shph.Obfuscation.{ProfileTier, medium, base_tiers}

abbrev pub magic : List ℕ
magic = b'P' ∷ b'H' ∷ b'1' ∷ 0 ∷ []

abbrev pub version : ℕ
version = 1

abbrev pub header_bytes : ℕ
header_bytes = 24

abbrev pub max_envelope_bytes : ℕ
max_envelope_bytes = 65535

abbrev pub max_payload_bytes : ℕ
max_payload_bytes = max_envelope_bytes - header_bytes

abbrev pub max_padding_bytes : ℕ
max_padding_bytes = 4096

abbrev pub default_replay_window : ℕ
default_replay_window = 64

pub data PhantomOneFrameType : Type 0 where
  data_frame control_frame keepalive_frame : PhantomOneFrameType

-- `frame_type as u8`
abbrev pub type_byte : PhantomOneFrameType → ℕ
type_byte data_frame = 1
type_byte control_frame = 2
type_byte keepalive_frame = 3

unfoldable pub frame_type_try_from : ℕ → Result ShphError PhantomOneFrameType
frame_type_try_from value =
    if value == 1
    then ok data_frame
    else if value == 2
    then ok control_frame
    else if value == 3
    then ok keepalive_frame
    else err (protocol "unsupported Phantom One frame type")

-- The weights are an array of seven numbers of 16 bits.
pub data SizeSelection : Type 0 where
  first_fit : SizeSelection
  weighted : List ℕ → SizeSelection

pub record PhantomOneConfig : Type 0 where
  pub profile : ProfileTier
  pub min_padding : ℕ
  pub max_padding : ℕ
  pub profile_bound : Bool
  pub selection : SizeSelection
  pub padding_budget : Option ℕ

abbrev is_positive : ℕ → Bool
is_positive weight = not (weight == 0)

-- The weights of the profile's tiers are not all zero, and the unused ones are.
unfoldable pub weights_fit : PhantomOneConfig → List ℕ → Bool
weights_fit c weights =
    let count = length (base_tiers c.profile) in
    c.profile_bound
    && any is_positive (take count weights)
    && not (any is_positive (drop count weights))

unfoldable pub check_selection : PhantomOneConfig → SizeSelection → Result ShphError (Unit {0})
check_selection c first_fit = ok tt
check_selection c (weighted weights) =
    reject_if (not (weights_fit c weights)) (config "invalid Phantom One class weights")

unfoldable pub validate : PhantomOneConfig → Result ShphError (Unit {0})
validate c = do
  check_selection c c.selection
  reject_if (ltb c.max_padding c.min_padding)
      (config "Phantom One minimum padding must not exceed maximum padding")
  reject_if (ltb max_padding_bytes c.max_padding)
      (config "Phantom One maximum padding must not exceed 4096 bytes")
  ok tt

abbrev pub unbound_config : ProfileTier → ℕ → ℕ → PhantomOneConfig
unbound_config tier low high = record {
  profile = tier;
  min_padding = low;
  max_padding = high;
  profile_bound = false;
  selection = first_fit;
  padding_budget = none;
}

unfoldable pub new : ℕ → ℕ → Result ShphError PhantomOneConfig
new low high = do validate (unbound_config medium low high); ok (unbound_config medium low high)

abbrev pub default_config : PhantomOneConfig
default_config = unbound_config medium 0 64

abbrev pub for_profile : ProfileTier → PhantomOneConfig
for_profile tier = record (unbound_config tier 0 max_padding_bytes) { profile_bound = true }

unfoldable pub with_profile : PhantomOneConfig → ProfileTier → PhantomOneConfig
with_profile c tier = record c { profile = tier; profile_bound = true }

unfoldable pub with_selection : PhantomOneConfig → SizeSelection → Result ShphError PhantomOneConfig
with_selection c choice = do
  validate (record c { selection = choice })
  ok (record c { selection = choice })

unfoldable pub with_padding_budget : PhantomOneConfig → ℕ → PhantomOneConfig
with_padding_budget c bytes = record c { padding_budget = some bytes }

pub record EnvelopeMetrics : Type 0 where
  pub frames : ℕ
  pub payload_bytes : ℕ
  pub header_total : ℕ
  pub padding_bytes : ℕ

abbrev pub no_metrics : EnvelopeMetrics
no_metrics = record { frames = 0; payload_bytes = 0; header_total = 0; padding_bytes = 0 }

pub record PhantomOneFrame : Type 0 where
  pub profile : ProfileTier
  pub generation : ℕ
  pub frame_type : PhantomOneFrameType
  pub sequence : ℕ
  pub payload : List ℕ
  pub target_len : ℕ
  pub padding_len : ℕ

unfoldable pub validate_path_mtu : ℕ → Result ShphError (Unit {0})
validate_path_mtu path_mtu =
    reject_if (not (leb header_bytes path_mtu && leb path_mtu max_envelope_bytes))
      (config "Phantom One path MTU must be between 24 and 65535 bytes")

unfoldable pub validate_payload_length : ℕ → Result ShphError (Unit {0})
validate_payload_length payload_len =
    reject_if (ltb max_payload_bytes payload_len || ltb 65535 payload_len)
      (protocol "Phantom One payload exceeds the Phantom One length bound")
