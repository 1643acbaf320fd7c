-- ===== src/Transport/PhantomOne/Selected.antt =====
-- `target_size` always answers, and the encoder accepts the size that it selected.
use shph.Prelude.{
  ℕ, ◌+◌, ◌-◌, ◌≤◌, min, ◌≡◌, refl, false, not, ◌&&◌, Option, none, some, ◌==◌, is_none, arith,
  Result, ok, err, ShphError, protocol, Option-cases, Bool-cases, Result-cases, inl, inr, List,
}
use shph.Obfuscation.{base_tiers, accepts_frame_len}
use shph.Transport.PhantomOne.{
  PhantomOneConfig, SizeSelection, first_fit, weighted, header_bytes, validate_path_mtu,
  validate_payload_length,
}
use shph.Transport.PhantomOne.Encoder.{
  StdRng, PhantomOneEncoder, remaining_padding, eligible_total, first_within, jitter_bound,
  target_range, target_size, select, weighted_target, fitted_target, free_target, jittered,
}
use shph.Transport.PhantomOne.Envelope.{checked_sequence}
use shph.Transport.PhantomOne.Target.{
  pick_found, first_within_lem, Jittered, base_tiers-Jittered, Ranged, target_range-Ranged,
}

-- A size in range that the profile accepts.
abbrev pub Chosen : PhantomOneConfig → ℕ → ℕ → ℕ → Type 0
Chosen c least most target =
    (least ≤ target)
    × (target ≤ most)
    × (c.profile_bound && not (accepts_frame_len c.profile target) ≡ false)

abbrev pub Answers : {S : Type 0} → Option (S × Result ShphError ℕ) → (ℕ → Type 0) → Type 0
Answers {S} answer P =
    (s : S) × (r : Result ShphError ℕ) × (answer ≡ some (s, r)) × ((t : ℕ) → r ≡ ok t → P t)

module _ {S : Type 0} (rng : StdRng S) where
  weighted_Answers :
      (c : PhantomOneConfig) (weights : List ℕ) (least most : ℕ) (s : S)
      → Answers (weighted_target rng c.profile weights least most s) (Chosen c least most)
  unfolding weighted_target
  weighted_Answers c weights least most s =
      let tiers = base_tiers c.profile in
      let total = eligible_total least most tiers weights in
      elim (Bool-cases (total == 0)) [
        | inl empty ↦ (
          s,
          err (protocol "no weighted Phantom One class fits the remaining budget"),
          ground arith,
          λ t h. ground arith,
        )
        | inr some_weight ↦
            let (lower, upper) = rng.ranged s 0 (total - 1) (omega arith) in
            let (tier, e, a, b, canonical) =
              pick_found (Jittered c.profile) least most tiers weights
                (rng.gen_range s 0 (total - 1)).1 (base_tiers-Jittered c.profile) (ground arith) in
            (
              (rng.gen_range s 0 (total - 1)).0,
              ok tier,
              ground (arith, e),
              λ t h. ground (arith, canonical 0),
            )
      ]

  fitted_Chosen :
      (c : PhantomOneConfig) (least most : ℕ) (s : S) (t : ℕ)
      → least ≤ most
      → (fitted_target rng c least most s).1 ≡ ok t
      → Chosen c least most t
  unfolding fitted_target free_target jittered
  fitted_Chosen c least most s t ordered h =
      elim (Option-cases (first_within least most (base_tiers c.profile))) [
        | inl e ↦
            let (lower, upper) = rng.ranged s least most ordered in ground (arith, e, lower, upper)
        | inr (base, e) ↦
            let (a, b, canonical) =
              first_within_lem (Jittered c.profile) least most (base_tiers c.profile)
                (base_tiers-Jittered c.profile) e in
            let spare = min (jitter_bound c.profile) (most - base) in
            let (lower, upper) = rng.ranged s 0 spare (omega arith) in
            ground (arith, e, a, b, upper, canonical 0, canonical (rng.gen_range s 0 spare).1)
      ]

  select_Answers :
      (choice : SizeSelection) (c : PhantomOneConfig) (least most : ℕ) (s : S)
      → least ≤ most
      → Answers (select rng choice c least most s) (Chosen c least most)
  unfolding select
  select_Answers first_fit c least most s ordered = (
    (fitted_target rng c least most s).0,
    (fitted_target rng c least most s).1,
    refl,
    λ t h. fitted_Chosen c least most s t ordered h,
  )
  select_Answers (weighted weights) c least most s ordered = weighted_Answers c weights least most s

numbered_some : (o : Option ℕ) → is_none o ≡ false → (sequence : ℕ) × (o ≡ some sequence)
numbered_some none h = absurd (ground arith)
numbered_some (some sequence) h = (sequence, refl)

-- A size in the range that the profile accepts passes every check of the encoder.
checked_of_Chosen :
    {S : Type 0} (e : PhantomOneEncoder S) (n path_mtu least most target : ℕ)
    → Ranged e n path_mtu least most
    → Chosen e.config least most target
    → (sequence : ℕ) × (e.next_sequence ≡ some sequence)
      × (checked_sequence e n target path_mtu ≡ ok sequence)
unfolding checked_sequence validate_path_mtu validate_payload_length
checked_of_Chosen e n path_mtu least most target r chosen =
    let (sequence, numbered) = numbered_some e.next_sequence r.numbered in
    let budget : target - (header_bytes + n) ≤ remaining_padding e = omega (arith, r.top) in
    (
      sequence,
      numbered,
      ground (arith, numbered, budget, r.valid, r.routed, r.fits, r.bottom, r.top),
    )

module _ {S : Type 0} (rng : StdRng S) where
  -- The selection of a target size always answers, so its `unreachable!` is never reached; and a size
  -- that it answers with is within the path's limit and passes every check of the encoder.
  pub target_size-checked :
      (e : PhantomOneEncoder S) (n path_mtu : ℕ)
      → Answers (target_size rng e n path_mtu) (λ t.
        (sequence : ℕ) × (e.next_sequence ≡ some sequence)
        × (checked_sequence e n t path_mtu ≡ ok sequence)
        × (t ≤ path_mtu))
  unfolding target_size
  target_size-checked e n path_mtu = elim (Result-cases (target_range e n path_mtu)) [
    | inl ((least, most), range) ↦
        let r = target_range-Ranged e n path_mtu range in
        let (s, answer, run, chosen) =
          select_Answers rng e.config.selection e.config least most e.rng r.ordered in
        (
          s,
          answer,
          ground (arith, range, run),
          λ t h.
              let (sequence, numbered, checked) =
                checked_of_Chosen e n path_mtu least most t r (chosen t h) in
              (sequence, numbered, checked, omega (arith, (chosen t h).1, r.top)),
        )
    | inr (why, range) ↦ (e.rng, err why, ground (arith, range), λ t h. ground arith)
  ]
