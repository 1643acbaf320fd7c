-- ===== src/Transport/EnvelopePolicy/Negotiate.antt =====
-- The agreement of two offers: `negotiate` and `agree`.
use Prim.Native.Nat.{bit_and}
use shph.Prelude.{
  ℕ, ◌+◌, ◌^◌, min, Bool, true, false, not, ◌&&◌, ◌||◌, Option, none, some, List, [], ◌∷◌, bytes_eq,
  ltb, ◌==◌, if◌then◌else◌, Result, ok, err, ◌>>=◌, ◌>>◌, reject_if, ShphError, protocol,
}
use shph.Obfuscation.{ProfileTier, id, from_id}
use shph.Transport.Cover.{CoverPolicy}
use shph.Transport.PhantomOne.{PhantomOneConfig, SizeSelection, first_fit, weighted}
use shph.Transport.EnvelopePolicy.{FrameBudget, intersect}
use shph.Transport.EnvelopePolicy.Offer.{EnvelopeOffer, profile_config}

pub record NegotiatedPolicy : Type 0 where
  pub config : PhantomOneConfig
  pub outbound_frame_limit : ℕ
  pub inbound_frame_limit : ℕ
  pub outbound_budget : FrameBudget
  pub inbound_budget : FrameBudget

-- The derived equalities.
abbrev pub selection_eq : SizeSelection → SizeSelection → Bool
selection_eq first_fit first_fit = true
selection_eq (weighted xs) (weighted ys) = bytes_eq xs ys
selection_eq _ _ = false

abbrev pub budget_eq : Option ℕ → Option ℕ → Bool
budget_eq none none = true
budget_eq (some a) (some b) = a == b
budget_eq _ _ = false

abbrev pub bool_eq : Bool → Bool → Bool
bool_eq true b = b
bool_eq false b = not b

abbrev pub cover_eq : Option CoverPolicy → Option CoverPolicy → Bool
cover_eq none none = true
cover_eq (some p) (some q) =
    p.interval_ms == q.interval_ms
    && p.idle_timeout_ms == q.idle_timeout_ms
    && p.maximum_bytes == q.maximum_bytes
    && p.overhead_percent == q.overhead_percent
cover_eq _ _ = false

unfoldable pub same_policy_settings : PhantomOneConfig → PhantomOneConfig → Bool
same_policy_settings left right =
    left.min_padding == right.min_padding
    && left.max_padding == right.max_padding
    && selection_eq left.selection right.selection
    && budget_eq left.padding_budget right.padding_budget
    && bool_eq left.profile_bound right.profile_bound

abbrev pub consed_tier : Option ProfileTier → List ProfileTier → List ProfileTier
consed_tier none tiers = tiers
consed_tier (some tier) tiers = tier ∷ tiers

-- The profiles whose bit is set, of the identifiers given.
unfoldable pub offered : ℕ → List ℕ → List ProfileTier
offered common [] = []
offered common (k ∷ ks) =
    let rest = offered common ks in
    if bit_and common (2 ^ k) == 0 then rest else consed_tier (from_id k) rest

-- How many of the two preferences a profile misses.
abbrev pub missed : ProfileTier → ProfileTier → ProfileTier → ℕ
missed mine theirs tier =
    (if id tier == id mine then 0 else 1) + (if id tier == id theirs then 0 else 1)

-- The order of the keys `(missed, id)`.
abbrev pub precedes : ProfileTier → ProfileTier → ProfileTier → ProfileTier → Bool
precedes mine theirs t u =
    ltb (missed mine theirs t) (missed mine theirs u)
    || (missed mine theirs t == missed mine theirs u && ltb (id t) (id u))

abbrev pub better :
    ProfileTier → ProfileTier → ProfileTier → Option ProfileTier → Option ProfileTier
better mine theirs tier none = some tier
better mine theirs tier (some best) =
    if precedes mine theirs best tier then some best else some tier

-- `min_by_key`: the first of the least.
unfoldable pub best_of : ProfileTier → ProfileTier → List ProfileTier → Option ProfileTier
best_of mine theirs [] = none
best_of mine theirs (tier ∷ tiers) = better mine theirs tier (best_of mine theirs tiers)

abbrev pub profile_ids : List ℕ
profile_ids = 0 ∷ 1 ∷ 2 ∷ 3 ∷ 4 ∷ 5 ∷ []

abbrev pub or_no_common : Option ProfileTier → Result ShphError ProfileTier
or_no_common none = err (protocol "peers have no common envelope profile")
or_no_common (some tier) = ok tier

-- The profile that two offers agree on.
unfoldable pub common_profile : EnvelopeOffer → EnvelopeOffer → Option ProfileTier
common_profile o peer =
    best_of o.config.profile peer.config.profile
      (offered (bit_and o.supported_profiles peer.supported_profiles) profile_ids)

unfoldable pub negotiate : EnvelopeOffer → EnvelopeOffer → Result ShphError NegotiatedPolicy
negotiate o peer = do
  reject_if
      (not (bytes_eq o.binding peer.binding)
        || not (same_policy_settings o.config peer.config)
        || not (cover_eq o.cover peer.cover))
      (protocol "envelope policies or authenticated sessions do not match")
  tier ← or_no_common (common_profile o peer)
  c ← profile_config o.config tier
  _ ← profile_config peer.config tier
  ok (record {
    config = c;
    outbound_frame_limit = min o.outbound_frame_limit peer.inbound_frame_limit;
    inbound_frame_limit = min o.inbound_frame_limit peer.outbound_frame_limit;
    outbound_budget = intersect o.outbound_budget peer.inbound_budget;
    inbound_budget = intersect o.inbound_budget peer.outbound_budget;
  })

unfoldable pub agree : EnvelopeOffer → EnvelopeOffer → Result ShphError ℕ
agree o peer = do
  agreement ← negotiate o peer
  ok (min agreement.outbound_frame_limit agreement.inbound_frame_limit)
