-- ===== src/Transport/EnvelopePolicy/Symmetry.antt =====
-- Both peers come to the same agreement, each with the directions exchanged.
use Prim.Native.Nat.{bit_and}
use shph.Prelude.{
  ℕ, ◌^◌, ◌≡◌, refl, sym, ap, ap₂, ◌∙◌, Bool, true, false, ◌&&◌, ◌||◌, Option, none, some, List, [],
  ◌∷◌, ltb, ◌==◌, bytes_eq_sym, bytes_eq→eq, if◌then◌else◌, arith, ok, Bool-cases, inl, inr,
}
use shph.Prelude.Bits.{test_bit-and, bit_and-pow}
use shph.Obfuscation.{ProfileTier, id, from_id}
use shph.Obfuscation.Tiers.{from_id-id}
use shph.Transport.Cover.{CoverPolicy}
use shph.Transport.PhantomOne.{PhantomOneConfig, SizeSelection, first_fit, weighted, with_profile}
use shph.Transport.EnvelopePolicy.Offer.{EnvelopeOffer, profile_config}
use shph.Transport.EnvelopePolicy.Negotiate.{
  offered, best_of, better, missed, precedes, profile_ids, common_profile, same_policy_settings,
  selection_eq, budget_eq, bool_eq, cover_eq,
}

-- The bits that two masks share, in either order.
common_bit :
    (a b k : ℕ) → (bit_and (bit_and a b) (2 ^ k) == 0) ≡ (bit_and (bit_and b a) (2 ^ k) == 0)
common_bit a b k = ground (
  arith,
  bit_and-pow (bit_and a b) k,
  bit_and-pow (bit_and b a) k,
  test_bit-and a b k,
  test_bit-and b a k,
)

offered_sym : (a b : ℕ) (ks : List ℕ) → offered (bit_and a b) ks ≡ offered (bit_and b a) ks
unfolding offered
offered_sym a b [] = refl
offered_sym a b (k ∷ ks) = simp (common_bit a b k, offered_sym a b ks)

missed_sym : (mine theirs t : ProfileTier) → missed mine theirs t ≡ missed theirs mine t
missed_sym mine theirs t = omega arith

precedes_sym : (mine theirs t u : ProfileTier) → precedes mine theirs t u ≡ precedes theirs mine t u
precedes_sym mine theirs t u =
    ap₂ (λ x y. ltb x y || (x == y && ltb (id t) (id u))) (missed_sym mine theirs t)
      (missed_sym mine theirs u)

better_sym :
    (mine theirs tier : ProfileTier) (found : Option ProfileTier)
    → better mine theirs tier found ≡ better theirs mine tier found
better_sym mine theirs tier none = refl
better_sym mine theirs tier (some best) =
    ap (λ b. if b then some best else some tier) (precedes_sym mine theirs best tier)

best_of_sym :
    (mine theirs : ProfileTier) (tiers : List ProfileTier)
    → best_of mine theirs tiers ≡ best_of theirs mine tiers
unfolding best_of
best_of_sym mine theirs [] = refl
best_of_sym mine theirs (tier ∷ tiers) =
    ap (better mine theirs tier) (best_of_sym mine theirs tiers)
    ∙ better_sym mine theirs tier (best_of theirs mine tiers)

pub common_profile_sym : (o peer : EnvelopeOffer) → common_profile o peer ≡ common_profile peer o
unfolding common_profile
common_profile_sym o peer =
    ap (best_of o.config.profile peer.config.profile)
      (offered_sym o.supported_profiles peer.supported_profiles profile_ids)
    ∙ best_of_sym o.config.profile peer.config.profile
        (offered (bit_and peer.supported_profiles o.supported_profiles) profile_ids)

-- What the same settings say.
pub record SameSettings (a b : PhantomOneConfig) : Type 0 where
  min_padding : a.min_padding ≡ b.min_padding
  max_padding : a.max_padding ≡ b.max_padding
  selection : a.selection ≡ b.selection
  padding_budget : a.padding_budget ≡ b.padding_budget
  profile_bound : a.profile_bound ≡ b.profile_bound

selection_eq_lem : (x y : SizeSelection) → selection_eq x y ≡ true → x ≡ y
selection_eq_lem first_fit first_fit h = refl
selection_eq_lem (weighted xs) (weighted ys) h = ap weighted (bytes_eq→eq xs ys h)
selection_eq_lem first_fit (weighted ys) h = absurd (ground arith)
selection_eq_lem (weighted xs) first_fit h = absurd (ground arith)

budget_eq_lem : (x y : Option ℕ) → budget_eq x y ≡ true → x ≡ y
budget_eq_lem none none h = refl
budget_eq_lem (some a) (some b) h = ground arith
budget_eq_lem none (some b) h = absurd (ground arith)
budget_eq_lem (some a) none h = absurd (ground arith)

bool_eq_lem : (x y : Bool) → bool_eq x y ≡ true → x ≡ y
bool_eq_lem true y h = sym h
bool_eq_lem false true h = absurd (ground arith)
bool_eq_lem false false h = refl

pub same-SameSettings :
    (a b : PhantomOneConfig) → same_policy_settings a b ≡ true → SameSettings a b
unfolding same_policy_settings
same-SameSettings a b h = record {
  min_padding = ground arith;
  max_padding = ground arith;
  selection = selection_eq_lem a.selection b.selection (ground arith);
  padding_budget = budget_eq_lem a.padding_budget b.padding_budget (ground arith);
  profile_bound = bool_eq_lem a.profile_bound b.profile_bound (ground arith);
}

selection_eq_sym : (x y : SizeSelection) → selection_eq x y ≡ selection_eq y x
selection_eq_sym first_fit first_fit = refl
selection_eq_sym (weighted xs) (weighted ys) = bytes_eq_sym xs ys
selection_eq_sym first_fit (weighted ys) = refl
selection_eq_sym (weighted xs) first_fit = refl

budget_eq_sym : (x y : Option ℕ) → budget_eq x y ≡ budget_eq y x
budget_eq_sym none none = refl
budget_eq_sym (some a) (some b) = ground arith
budget_eq_sym none (some b) = refl
budget_eq_sym (some a) none = refl

bool_eq_sym : (x y : Bool) → bool_eq x y ≡ bool_eq y x
bool_eq_sym true true = refl
bool_eq_sym true false = refl
bool_eq_sym false true = refl
bool_eq_sym false false = refl

num_eq_sym : (a b : ℕ) → (a == b) ≡ (b == a)
num_eq_sym a b = ground arith

pub cover_eq_sym : (x y : Option CoverPolicy) → cover_eq x y ≡ cover_eq y x
cover_eq_sym none none = refl
cover_eq_sym (some p) (some q) = simp (
  num_eq_sym p.interval_ms q.interval_ms,
  num_eq_sym p.idle_timeout_ms q.idle_timeout_ms,
  num_eq_sym p.maximum_bytes q.maximum_bytes,
  num_eq_sym p.overhead_percent q.overhead_percent,
)
cover_eq_sym none (some q) = refl
cover_eq_sym (some p) none = refl

pub same_settings_sym :
    (a b : PhantomOneConfig) → same_policy_settings a b ≡ same_policy_settings b a
unfolding same_policy_settings
same_settings_sym a b = simp (
  num_eq_sym a.min_padding b.min_padding,
  num_eq_sym a.max_padding b.max_padding,
  selection_eq_sym a.selection b.selection,
  budget_eq_sym a.padding_budget b.padding_budget,
  bool_eq_sym a.profile_bound b.profile_bound,
)

id_injective : (t u : ProfileTier) → id t ≡ id u → t ≡ u
id_injective t u e = some_injective (sym (from_id-id t 0).0 ∙ ap from_id e ∙ (from_id-id u 0).0)
  where
    some_injective : ◌≡◌ {A = Option ProfileTier} (some t) (some u) → t ≡ u
    some_injective e = cc

pub profile_config_lem :
    (c : PhantomOneConfig) (tier : ProfileTier) {out : PhantomOneConfig}
    → profile_config c tier ≡ ok out
    → out ≡ record c { profile = tier }
unfolding profile_config with_profile
profile_config_lem c tier {out} h = elim (Bool-cases c.profile_bound) [
  | inl bound ↦ ground (arith, bound)
  | inr free ↦ ground (arith, free, id_injective c.profile tier)
]

pub at_tier :
    (a b : PhantomOneConfig) (tier : ProfileTier)
    → SameSettings a b
    → record a { profile = tier } ≡ record b { profile = tier }
at_tier a b tier s =
    ground (arith, s.min_padding, s.max_padding, s.selection, s.padding_budget, s.profile_bound)
