-- ===== src/Transport/PhantomOne/Encoder.antt =====
-- `PhantomOneEncoder`. The seeded generator (`StdRng` of crate `rand`) is a parameter. The sums of
-- lengths are checked below the bounds first, so no `checked_add` of a length can fail.
use shph.Prelude.{
  ℕ, ◌+◌, ◌-◌, ◌≤◌, min, Bool, not, ◌&&◌, ◌||◌, ◌≡◌, Option, none, some, List, [], ◌∷◌, length, ltb,
  leb, ◌==◌, if◌then◌else◌, is_none, Result, ok, err, ◌>>◌, reject_if, ShphError, protocol,
  resource_exhausted, u64_max,
}
use shph.Obfuscation.{ProfileTier, low, tuned_low, base_tiers}
use shph.Transport.PhantomOne.{
  PhantomOneConfig, SizeSelection, first_fit, weighted, EnvelopeMetrics, no_metrics, default_config,
  for_profile, header_bytes, validate, validate_path_mtu, validate_payload_length,
}

-- `gen_range(least..=most)`, and a buffer of the given length or a failure.
pub record StdRng (S : Type 0) : Type 0 where
  pub gen_range : S → ℕ → ℕ → S × ℕ
  pub ranged :
      (s : S) (least most : ℕ)
      → least ≤ most
      → (least ≤ (gen_range s least most).1) × ((gen_range s least most).1 ≤ most)
  pub try_fill_bytes : S → ℕ → S × Option (List ℕ)
  pub filled :
      (s : S) (n : ℕ) {bytes : List ℕ} → (try_fill_bytes s n).1 ≡ some bytes → length bytes ≡ n

pub record PhantomOneEncoder (S : Type 0) : Type 0 where
  pub generation : ℕ
  pub next_sequence : Option ℕ
  pub config : PhantomOneConfig
  pub rng : S
  pub metrics : EnvelopeMetrics

-- `from_validated_config`, on a generator that is seeded already.
abbrev pub from_validated_config : {S : Type 0} → ℕ → S → PhantomOneConfig → PhantomOneEncoder S
from_validated_config generation seeded c = record {
  generation = generation;
  next_sequence = some 0;
  config = c;
  rng = seeded;
  metrics = no_metrics;
}

unfoldable pub from_seed_with_config :
    {S : Type 0} → ℕ → S → PhantomOneConfig → Result ShphError (PhantomOneEncoder S)
from_seed_with_config generation seeded c = do
  validate c
  ok (from_validated_config generation seeded c)

abbrev pub from_seed : {S : Type 0} → ℕ → S → PhantomOneEncoder S
from_seed generation seeded = from_validated_config generation seeded default_config

abbrev pub from_seed_with_profile : {S : Type 0} → ℕ → S → ProfileTier → PhantomOneEncoder S
from_seed_with_profile generation seeded tier =
    from_validated_config generation seeded (for_profile tier)

abbrev pub from_seed_at : {S : Type 0} → ℕ → ℕ → S → PhantomOneEncoder S
from_seed_at generation sequence seeded = record (from_seed generation seeded) {
  next_sequence = some sequence;
}

abbrev pub from_seed_at_with_profile : {S : Type 0} → ℕ → ℕ → S → ProfileTier → PhantomOneEncoder S
from_seed_at_with_profile generation sequence seeded tier =
    record (from_seed_with_profile generation seeded tier) { next_sequence = some sequence }

unfoldable pub remaining_under : Option ℕ → ℕ → ℕ
remaining_under none used = u64_max
remaining_under (some budget) used = budget - used

unfoldable pub remaining_padding : {S : Type 0} → PhantomOneEncoder S → ℕ
remaining_padding e = remaining_under e.config.padding_budget e.metrics.padding_bytes

-- `(least..=most).contains(&n)`
abbrev pub within : ℕ → ℕ → ℕ → Bool
within least most n = leb least n && leb n most

-- The sum of the weights of the tiers in range; the two lists are zipped.
unfoldable pub eligible_total : ℕ → ℕ → List ℕ → List ℕ → ℕ
eligible_total least most (tier ∷ tiers) (weight ∷ weights) =
    let rest = eligible_total least most tiers weights in
    if within least most tier then weight + rest else rest
eligible_total least most _ _ = 0

-- The loop over the tiers. `none` is its end, where the code says `unreachable!`.
unfoldable pub pick : ℕ → ℕ → List ℕ → List ℕ → ℕ → Option ℕ
pick least most (tier ∷ tiers) (weight ∷ weights) sample =
    let skipped = pick least most tiers weights sample in
    let passed = pick least most tiers weights (sample - weight) in
    if not (within least most tier)
    then skipped
    else if ltb sample weight
    then some tier
    else passed
pick least most _ _ sample = none

-- The smallest tier in range.
unfoldable pub first_within : ℕ → ℕ → List ℕ → Option ℕ
first_within least most [] = none
first_within least most (tier ∷ tiers) =
    let rest = first_within least most tiers in
    if ltb tier least || ltb most tier then rest else some tier

abbrev pub jitter_bound : ProfileTier → ℕ
jitter_bound low = 7
jitter_bound tuned_low = 3
jitter_bound _ = 0

abbrev pub exhausted : ShphError
exhausted = resource_exhausted "Phantom One sequence space exhausted"

-- The least and the greatest target, or the reason that there is none.
unfoldable pub target_range : {S : Type 0} → PhantomOneEncoder S → ℕ → ℕ → Result ShphError (ℕ × ℕ)
target_range e payload_len path_mtu = do
  validate e.config
  validate_path_mtu path_mtu
  validate_payload_length payload_len
  reject_if (is_none e.next_sequence) exhausted
  let minimum = header_bytes + payload_len
  let minimum_target = minimum + e.config.min_padding
  reject_if (ltb path_mtu minimum_target) (protocol "Phantom One minimum target exceeds path MTU")
  let maximum_target = min (minimum + min e.config.max_padding (remaining_padding e)) path_mtu
  reject_if (ltb maximum_target minimum_target)
      (resource_exhausted "Phantom One padding budget exhausted")
  ok (minimum_target, maximum_target)

abbrev pub answered : {S : Type 0} → S → Option ℕ → Option (S × Result ShphError ℕ)
answered s none = none
answered s (some tier) = some (s, ok tier)

module _ {S : Type 0} (rng : StdRng S) where
  unfoldable pub weighted_target :
      ProfileTier → List ℕ → ℕ → ℕ → S → Option (S × Result ShphError ℕ)
  weighted_target tier weights least most s =
      let tiers = base_tiers tier in
      let total = eligible_total least most tiers weights in
      let (s', sample) = rng.gen_range s 0 (total - 1) in
      if total == 0
      then some (s, err (protocol "no weighted Phantom One class fits the remaining budget"))
      else answered s' (pick least most tiers weights sample)

  unfoldable pub jittered : ℕ → ℕ → S → S × Result ShphError ℕ
  jittered base available s =
      let (s', jitter) = rng.gen_range s 0 available in
      if available == 0 then (s, ok base) else (s', ok (base + jitter))

  unfoldable pub free_target : PhantomOneConfig → ℕ → ℕ → S → S × Result ShphError ℕ
  free_target c least most s =
      let (s', target) = rng.gen_range s least most in
      if c.profile_bound
      then (
        s,
        err (
            protocol
              "Phantom One payload does not fit the selected profile's canonical size classes"),
      )
      else (s', ok target)

  unfoldable pub fitted_target : PhantomOneConfig → ℕ → ℕ → S → S × Result ShphError ℕ
  fitted_target c least most s = elim (first_within least most (base_tiers c.profile)) [
    | none ↦ free_target c least most s
    | some base ↦ jittered base (min (jitter_bound c.profile) (most - base)) s
  ]

  unfoldable pub select :
      SizeSelection → PhantomOneConfig → ℕ → ℕ → S → Option (S × Result ShphError ℕ)
  select first_fit c least most s = some (fitted_target c least most s)
  select (weighted weights) c least most s = weighted_target c.profile weights least most s

  -- The generator afterwards and the answer; `none` where the code would panic.
  unfoldable pub target_size : PhantomOneEncoder S → ℕ → ℕ → Option (S × Result ShphError ℕ)
  target_size e payload_len path_mtu = elim (target_range e payload_len path_mtu) [
    | err why ↦ some (e.rng, err why)
    | ok (least, most) ↦ select e.config.selection e.config least most e.rng
  ]
