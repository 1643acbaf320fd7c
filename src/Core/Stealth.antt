-- ===== src/Core/Stealth.antt =====
-- The shroud profiles of shph-core/src/stealth.rs. A `Duration` is its number of nanoseconds.
pub mod Camouflage
use text.Mathlib.Text.{◌==◌ as str_eq}
use shph.Prelude.{
  ℕ, zero, suc, ◌+◌, ◌-◌, ◌*◌, ◌≤◌, ◌<◌, ◌≡◌, refl, Bool, true, false, not, ◌&&◌, ◌||◌, Option,
  none, some, List, [], ◌∷◌, String, ltb, leb, ◌==◌, if◌then◌else◌, arith, All, Bool-cases, inl,
  inr, subst,
}

pub record ShroudProfile : Type 0 where
  pub name : String
  pub cell_size : ℕ
  pub send_interval : ℕ
  pub chaff_interval : ℕ
  pub max_payload_chunk : ℕ
  pub deterministic_padding : Bool
  pub adaptive_chunking : Bool

-- `Duration::from_millis`
abbrev pub millis : ℕ → ℕ
millis n = n * 1000000

-- `self.cell_size.saturating_sub(5)`
abbrev pub payload_capacity : ShroudProfile → ℕ
payload_capacity p = p.cell_size - 5

abbrev pub is_valid : ShroudProfile → Bool
is_valid p =
    leb 64 p.cell_size
    && leb p.cell_size (16 * 1024)
    && ltb 0 p.max_payload_chunk
    && leb p.max_payload_chunk (payload_capacity p)
    && not (p.send_interval == 0)
    && not (p.chaff_interval == 0)

unfoldable pub is_tuned : ShroudProfile → Bool
is_tuned p = str_eq p.name "tuned-low" || str_eq p.name "tuned-medium" || str_eq p.name "tuned-high"

abbrev profile : String → ℕ → ℕ → ℕ → ℕ → Bool → ShroudProfile
profile name cell send chaff chunk deterministic = record {
  name = name;
  cell_size = cell;
  send_interval = millis send;
  chaff_interval = millis chaff;
  max_payload_chunk = chunk;
  deterministic_padding = deterministic;
  adaptive_chunking = true;
}

abbrev pub balanced : ShroudProfile
balanced = profile "balanced" 1024 25 250 768 true

abbrev pub low_latency : ShroudProfile
low_latency = profile "low-latency" 512 5 100 384 true

abbrev pub bulk : ShroudProfile
bulk = profile "bulk" 4096 10 500 3072 true

abbrev pub randomized_lab : ShroudProfile
randomized_lab = profile "randomized-lab" 1024 25 250 768 false

abbrev pub extreme_lab : ShroudProfile
extreme_lab = profile "extreme-lab" 8192 20 1000 6144 false

abbrev pub tuned_low : ShroudProfile
tuned_low = profile "tuned-low" 256 3 150 192 false

abbrev pub tuned_medium : ShroudProfile
tuned_medium = profile "tuned-medium" 768 10 350 700 false

abbrev pub tuned_high : ShroudProfile
tuned_high = profile "tuned-high" 1360 5 500 1200 false

abbrev pub profiles : List ShroudProfile
profiles =
    balanced ∷ low_latency ∷ bulk ∷ randomized_lab ∷ extreme_lab ∷ tuned_low ∷ tuned_medium
    ∷ tuned_high ∷ []

-- `iter().copied().find(|profile| profile.name == name)`
unfoldable pub find_profile : List ShroudProfile → String → Option ShroudProfile
find_profile [] name = none
find_profile (p ∷ ps) name = if str_eq p.name name then some p else find_profile ps name

unfoldable pub shroud_profile_by_name : String → Option ShroudProfile
unfolding find_profile
shroud_profile_by_name name = find_profile profiles name

profiles_valid : All (λ p. is_valid p ≡ true) profiles
profiles_valid = ground arith

find_profile-All :
    (P : ShroudProfile → Type 0) (ps : List ShroudProfile) (name : String) {p : ShroudProfile}
    → All P ps
    → find_profile ps name ≡ some p
    → P p × (str_eq p.name name ≡ true)
unfolding find_profile
find_profile-All P [] name h e = cc
find_profile-All P (q ∷ ps) name {p} h e = elim (Bool-cases (str_eq q.name name)) [
  | inl hit ↦
      let same : q ≡ p = ground arith in
      subst (λ r. P r × (str_eq r.name name ≡ true)) same (h.0, hit)
  | inr miss ↦ find_profile-All P ps name h.1 (rw miss at e)
]

-- Every profile that a name selects carries that name and is valid.
pub by_name_valid :
    (name : String) {p : ShroudProfile}
    → shroud_profile_by_name name ≡ some p
    → (is_valid p ≡ true) × (str_eq p.name name ≡ true)
unfolding shroud_profile_by_name
by_name_valid name e = find_profile-All (λ p. is_valid p ≡ true) profiles name profiles_valid e
