-- ===== src/Transport/EnvelopePolicy/Choice.antt =====
-- The profile that two offers agree on is supported by both and misses the fewest preferences.
use shph.Prelude.{
  ℕ, ◌≡◌, refl, sym, subst, true, false, ◌&&◌, ◌||◌, none, some, List, [], ◌∷◌, All, ltb, ◌==◌,
  arith, Option-cases, Bool-cases, inl, inr,
}
use shph.Obfuscation.{ProfileTier, low, medium, high, tuned_low, tuned_medium, tuned_high, id}
use shph.Obfuscation.Tiers.{from_id-id}
use shph.Transport.EnvelopePolicy.Negotiate.{offered, best_of, precedes, missed, profile_ids}
use shph.Transport.EnvelopePolicy.Offered.{supports, offered_each, offered_supported}

-- The order of pairs of numbers.
lex_irrefl : (a i : ℕ) → (ltb a a || (a == a && ltb i i)) ≡ false
lex_irrefl a i = ground arith

lex_trans :
    (a i b j c k : ℕ)
    → (ltb a b || (a == b && ltb i j)) ≡ false
    → (ltb b c || (b == c && ltb j k)) ≡ false
    → (ltb a c || (a == c && ltb i k)) ≡ false
lex_trans a i b j c k h h' = ground arith

lex_asym :
    (a i b j : ℕ)
    → (ltb a b || (a == b && ltb i j)) ≡ true
    → (ltb b a || (b == a && ltb j i)) ≡ false
lex_asym a i b j h = ground arith

module _ (mine theirs : ProfileTier) where
  best_none : (tiers : List ProfileTier) → best_of mine theirs tiers ≡ none → tiers ≡ []
  unfolding best_of
  best_none [] e = refl
  best_none (tier ∷ tiers) e = elim (Option-cases (best_of mine theirs tiers)) [
    | inl alone ↦ absurd (ground (arith, alone))
    | inr (second, found) ↦ elim (Bool-cases (precedes mine theirs second tier)) [
      | inl before ↦ absurd (ground (arith, found, before))
      | inr after ↦ absurd (ground (arith, found, after))
    ]
  ]

  abbrev Least : ProfileTier → List ProfileTier → Type 0
  Least best = All (λ tier. precedes mine theirs tier best ≡ false)

  Least-trans :
      (best next : ProfileTier) (tiers : List ProfileTier)
      → Least best tiers
      → precedes mine theirs best next ≡ false
      → Least next tiers
  Least-trans best next [] h e = tt
  Least-trans best next (tier ∷ tiers) h e = (
    lex_trans (missed mine theirs tier) (id tier) (missed mine theirs best) (id best)
        (missed mine theirs next) (id next) h.0 e,
    Least-trans best next tiers h.1 e,
  )

  pub best_of-Least :
      (P : ProfileTier → Type 0) (tiers : List ProfileTier) {best : ProfileTier}
      → All P tiers
      → best_of mine theirs tiers ≡ some best
      → P best × Least best tiers
  unfolding best_of
  best_of-Least P [] h e = absurd (ground arith)
  best_of-Least P (tier ∷ tiers) {best} h e = elim (Option-cases (best_of mine theirs tiers)) [
    | inl alone ↦
        let same : tier ≡ best = ground (arith, alone) in
        (
          subst P same h.0,
          (
            subst (λ b. precedes mine theirs tier b ≡ false) same
                (lex_irrefl (missed mine theirs tier) (id tier)),
            subst (Least best) (sym (best_none tiers alone)) tt,
          ),
        )
    | inr (second, found) ↦
        let (p, least) = best_of-Least P tiers {best = second} h.1 found in
        elim (Bool-cases (precedes mine theirs second tier)) [
          | inl before ↦
              let same : second ≡ best = ground (arith, found, before) in
              (
                subst P same p,
                (
                  subst (λ b. precedes mine theirs tier b ≡ false) same
                      (lex_asym (missed mine theirs second) (id second) (missed mine theirs tier)
                        (id tier) before),
                  subst (λ b. Least b tiers) same least,
                ),
              )
          | inr after ↦
              let same : tier ≡ best = ground (arith, found, after) in
              (
                subst P same h.0,
                (
                  subst (λ b. precedes mine theirs tier b ≡ false) same
                      (lex_irrefl (missed mine theirs tier) (id tier)),
                  subst (λ b. Least b tiers) same (Least-trans second tier tiers least after),
                ),
              )
        ]
  ]

-- The profile that is chosen has its bit in the mask, and no profile with its bit there precedes it.
pub best_offered :
    (mine theirs : ProfileTier) (common : ℕ) {best : ProfileTier}
    → best_of mine theirs (offered common profile_ids) ≡ some best
    → (supports common best ≡ true)
      × ((tier : ProfileTier)
          → supports common tier ≡ true
          → precedes mine theirs tier best ≡ false)
best_offered mine theirs common {best} e =
    let (bit, least) =
      best_of-Least mine theirs (λ t. supports common t ≡ true) (offered common profile_ids)
        {best = best} (offered_supported common profile_ids) e in
    let (l, (m, (h, (tl, (tm, (th, _)))))) =
      offered_each (λ t. precedes mine theirs t best ≡ false) common profile_ids least in
    (
      bit,
      λ tier. elim tier as (λ t. supports common t ≡ true → precedes mine theirs t best ≡ false) [
        | low ↦ l low (from_id-id low 0).0
        | medium ↦ m medium (from_id-id medium 0).0
        | high ↦ h high (from_id-id high 0).0
        | tuned_low ↦ tl tuned_low (from_id-id tuned_low 0).0
        | tuned_medium ↦ tm tuned_medium (from_id-id tuned_medium 0).0
        | tuned_high ↦ th tuned_high (from_id-id tuned_high 0).0
      ],
    )
