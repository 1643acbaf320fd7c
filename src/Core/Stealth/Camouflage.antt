-- ===== src/Core/Stealth/Camouflage.antt =====
-- The stealth profiles of shph-core/src/stealth.rs: the camouflage of a handshake and the morphing of traffic.
use text.Mathlib.Text.{◌==◌ as str_eq}
use shph.Prelude.{ℕ, Bool, true, false, Option, none, some, List, [], ◌∷◌, String, if◌then◌else◌}
use shph.Core.Stealth.{millis}

pub data TlsCamouflage : Type 0 where
  balanced browser_blend http11_favor browser_strict h3_camouflage : TlsCamouflage

pub data ChunkDistribution : Type 0 where
  uniform front_loaded tail_loaded : ChunkDistribution

pub record MorphProfile : Type 0 where
  pub chunk_distribution : ChunkDistribution
  pub padding_probability_pct : ℕ
  pub burst_probability_pct : ℕ
  pub idle_chaff_probability_pct : ℕ
  pub cell_size_classes : List ℕ

pub record StealthProfile : Type 0 where
  pub name : String
  pub tls_camouflage : TlsCamouflage
  pub handshake_jitter_floor : ℕ
  pub handshake_jitter_ceil : ℕ
  pub morph : MorphProfile
  pub quic_candidate : Bool

abbrev pub steady : StealthProfile
steady = record {
  name = "steady";
  tls_camouflage = balanced;
  handshake_jitter_floor = millis 5;
  handshake_jitter_ceil = millis 40;
  morph = record {
    chunk_distribution = uniform;
    padding_probability_pct = 18;
    burst_probability_pct = 22;
    idle_chaff_probability_pct = 35;
    cell_size_classes = 1024 ∷ 1280 ∷ [];
  };
  quic_candidate = false;
}

abbrev pub camouflage : StealthProfile
camouflage = record {
  name = "camouflage";
  tls_camouflage = browser_blend;
  handshake_jitter_floor = millis 12;
  handshake_jitter_ceil = millis 90;
  morph = record {
    chunk_distribution = front_loaded;
    padding_probability_pct = 30;
    burst_probability_pct = 38;
    idle_chaff_probability_pct = 45;
    cell_size_classes = 768 ∷ 1024 ∷ 1280 ∷ [];
  };
  quic_candidate = true;
}

abbrev pub mimicry_lab : StealthProfile
mimicry_lab = record {
  name = "mimicry-lab";
  tls_camouflage = http11_favor;
  handshake_jitter_floor = millis 20;
  handshake_jitter_ceil = millis 140;
  morph = record {
    chunk_distribution = tail_loaded;
    padding_probability_pct = 44;
    burst_probability_pct = 53;
    idle_chaff_probability_pct = 58;
    cell_size_classes = 512 ∷ 768 ∷ 1024 ∷ 1536 ∷ [];
  };
  quic_candidate = true;
}

abbrev pub stealth_profiles : List StealthProfile
stealth_profiles = steady ∷ camouflage ∷ mimicry_lab ∷ []

-- `iter().copied().find(|profile| profile.name == name)`
unfoldable pub find_stealth : List StealthProfile → String → Option StealthProfile
find_stealth [] name = none
find_stealth (p ∷ ps) name =
    let rest = find_stealth ps name in if str_eq p.name name then some p else rest

unfoldable pub stealth_profile_by_name : String → Option StealthProfile
stealth_profile_by_name name = find_stealth stealth_profiles name
