-- ===== src/Transport/EnvelopePolicy/Mirrors.antt =====
-- The agreement of two peers: the same for both, and the best that both support.
use Prim.Native.Nat.{bit_and}
use shph.Prelude.{
  ℕ, min, ◌≡◌, sym, ap, ap₂, subst, ◌∙◌, true, false, ◌&&◌, some, bytes_eq, bytes_eq_sym, arith, ok,
  Option-cases, Result-cases, inl, inr,
}
use shph.Obfuscation.{ProfileTier}
use shph.Transport.PhantomOne.{PhantomOneConfig}
use shph.Transport.EnvelopePolicy.{FrameBudget, intersect}
use shph.Transport.EnvelopePolicy.Offer.{EnvelopeOffer, profile_config}
use shph.Transport.EnvelopePolicy.Negotiate.{
  NegotiatedPolicy, common_profile, same_policy_settings, cover_eq, negotiate, precedes,
}
use shph.Transport.EnvelopePolicy.Offered.{supports, supports-and}
use shph.Transport.EnvelopePolicy.Choice.{best_offered}
use shph.Transport.EnvelopePolicy.Symmetry.{
  common_profile_sym, same-SameSettings, same_settings_sym, cover_eq_sym, at_tier,
  profile_config_lem,
}

record Negotiates (o peer : EnvelopeOffer) (p : NegotiatedPolicy) : Type 0 where
  tier : ProfileTier
  other : PhantomOneConfig
  bound : bytes_eq o.binding peer.binding ≡ true
  settled : same_policy_settings o.config peer.config ≡ true
  covered : cover_eq o.cover peer.cover ≡ true
  chosen : common_profile o peer ≡ some tier
  mine : profile_config o.config tier ≡ ok p.config
  theirs : profile_config peer.config tier ≡ ok other
  outbound_limit : p.outbound_frame_limit ≡ min o.outbound_frame_limit peer.inbound_frame_limit
  inbound_limit : p.inbound_frame_limit ≡ min o.inbound_frame_limit peer.outbound_frame_limit
  outbound : p.outbound_budget ≡ intersect o.outbound_budget peer.inbound_budget
  inbound : p.inbound_budget ≡ intersect o.inbound_budget peer.outbound_budget

negotiate-Negotiates :
    (o peer : EnvelopeOffer) {p : NegotiatedPolicy} → negotiate o peer ≡ ok p → Negotiates o peer p
unfolding negotiate
negotiate-Negotiates o peer {p} h = elim (Option-cases (common_profile o peer)) [
  | inl nothing ↦ absurd (ground (arith, nothing))
  | inr (tier, chosen) ↦ elim (Result-cases (profile_config o.config tier)) [
    | inr (why, bad) ↦ absurd (ground (arith, chosen, bad))
    | inl (c, good) ↦ elim (Result-cases (profile_config peer.config tier)) [
      | inr (why, bad) ↦ absurd (ground (arith, chosen, good, bad))
      | inl (other, fine) ↦ record {
        tier = tier;
        other = other;
        bound = ground arith;
        settled = ground arith;
        covered = ground arith;
        chosen = chosen;
        mine = ground (arith, chosen, good, fine);
        theirs = fine;
        outbound_limit = ground (arith, chosen, good, fine);
        inbound_limit = ground (arith, chosen, good, fine);
        outbound = ground (arith, chosen, good, fine);
        inbound = ground (arith, chosen, good, fine);
      }
    ]
  ]
]

-- The agreement as the other peer sees it.
abbrev pub mirror : NegotiatedPolicy → NegotiatedPolicy
mirror p = record {
  config = p.config;
  outbound_frame_limit = p.inbound_frame_limit;
  inbound_frame_limit = p.outbound_frame_limit;
  outbound_budget = p.inbound_budget;
  inbound_budget = p.outbound_budget;
}

min_sym : (a b : ℕ) → min a b ≡ min b a
min_sym a b = omega arith

intersect_sym : (a b : FrameBudget) → intersect a b ≡ intersect b a
intersect_sym a b =
    ground
      (arith, min_sym a.max_frames b.max_frames, min_sym a.max_payload_bytes b.max_payload_bytes)

-- When one peer reaches an agreement, so does the other: the same configuration, with the limits and
-- budgets of the two directions exchanged.
pub negotiate-mirrors :
    (o peer : EnvelopeOffer) {p : NegotiatedPolicy}
    → negotiate o peer ≡ ok p
    → negotiate peer o ≡ ok (mirror p)
unfolding negotiate
negotiate-mirrors o peer {p} h =
    let n = negotiate-Negotiates o peer {p = p} h in
    let back : common_profile peer o ≡ some n.tier = sym (common_profile_sym o peer) ∙ n.chosen in
    let same : p.config ≡ n.other =
      profile_config_lem o.config n.tier n.mine
      ∙ at_tier o.config peer.config n.tier (same-SameSettings o.config peer.config n.settled)
      ∙ sym (profile_config_lem peer.config n.tier n.theirs) in
    simp (
      bytes_eq_sym peer.binding o.binding ∙ n.bound,
      same_settings_sym peer.config o.config ∙ n.settled,
      cover_eq_sym peer.cover o.cover ∙ n.covered,
      back,
      n.mine,
      n.theirs,
      same,
      n.outbound_limit,
      n.inbound_limit,
      n.outbound,
      n.inbound,
      min_sym peer.outbound_frame_limit o.inbound_frame_limit,
      min_sym peer.inbound_frame_limit o.outbound_frame_limit,
      intersect_sym peer.outbound_budget o.inbound_budget,
      intersect_sym peer.inbound_budget o.outbound_budget,
    )

-- An agreement is on a profile that both peers support, and no other profile that both support misses
-- fewer of their two preferences.
pub negotiate_prefers :
    (o peer : EnvelopeOffer) {p : NegotiatedPolicy}
    → negotiate o peer ≡ ok p
    → (supports o.supported_profiles p.config.profile ≡ true)
      × (supports peer.supported_profiles p.config.profile ≡ true)
      × ((tier : ProfileTier)
          → supports o.supported_profiles tier ≡ true
          → supports peer.supported_profiles tier ≡ true
          → precedes o.config.profile peer.config.profile tier p.config.profile ≡ false)
unfolding common_profile
negotiate_prefers o peer {p} h =
    let n = negotiate-Negotiates o peer {p = p} h in
    let (bit, least) =
      best_offered o.config.profile peer.config.profile
        (bit_and o.supported_profiles peer.supported_profiles) {best = n.tier} n.chosen in
    let same : n.tier ≡ p.config.profile =
      sym (ap (λ c. c.profile) (profile_config_lem o.config n.tier n.mine)) in
    let both = supports-and o.supported_profiles peer.supported_profiles in
    (
      subst (λ t. supports o.supported_profiles t ≡ true) same (ground (arith, bit, both n.tier)),
      subst (λ t. supports peer.supported_profiles t ≡ true) same
          (ground (arith, bit, both n.tier)),
      λ tier mine theirs.
          subst (λ t. precedes o.config.profile peer.config.profile tier t ≡ false) same
            (least tier (both tier ∙ ap₂ ◌&&◌ mine theirs)),
    )
