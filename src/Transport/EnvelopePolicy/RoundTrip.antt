-- ===== src/Transport/EnvelopePolicy/RoundTrip.antt =====
-- An offer is read back from its bytes.
use shph.Prelude.{
  ℕ, ◌%◌, ◌≡◌, refl, ap, ap₂, ◌∙◌, List, ◌++◌, length, get_or, take, drop, arith, ok, ◌>>◌,
}
use shph.Prelude.Bytes.{be_bytes, be_value-be_bytes}
use shph.Obfuscation.{medium, id}
use shph.Obfuscation.Tiers.{from_id-id}
use shph.Transport.PhantomOne.{PhantomOneConfig, validate, unbound_config, with_selection}
use shph.Transport.PhantomOne.Wire.{field}
use shph.Transport.EnvelopePolicy.Offer.{EnvelopeOffer}
use shph.Transport.EnvelopePolicy.Wire.{
  selection_bytes, selection_at, weights_at, padding_budget_at, budget_at, cover_at, settings_bytes,
  limits_bytes, directions_bytes, encode, decode, flag_byte, policy_magic,
}
use shph.Transport.EnvelopePolicy.Parts.{
  selection-SelectionReads, padding_budget_lem, cover_at-cover_bytes,
}
use shph.Transport.EnvelopePolicy.Blocks.{
  IsOffer, padding_small, plain_valid, with_bound, bound_at_lem, unbudgeted, unbudgeted_valid,
  padding_budget_at_lem, directions_lem, encode-Blocks,
}

settings_lem :
    (o : EnvelopeOffer) (tail : List ℕ)
    → validate o.config ≡ ok tt
    → (get_or (settings_bytes o ++ tail) 0 0 ≡ id o.config.profile)
      × (get_or (settings_bytes o ++ tail) 1 0 ≡ o.supported_profiles)
      × (get_or (settings_bytes o ++ tail) 2 0 ≡ flag_byte o.config.profile_bound)
      × (field (settings_bytes o ++ tail) 3 2 ≡ o.config.min_padding)
      × (field (settings_bytes o ++ tail) 5 2 ≡ o.config.max_padding)
      × (get_or (settings_bytes o ++ tail) 7 0 ≡ get_or tail 0 0)
      × (drop 8 (settings_bytes o ++ tail) ≡ drop 1 tail)
unfolding settings_bytes be_bytes
settings_lem o tail h =
    let (low, high) = padding_small o.config h in
    (
      refl,
      refl,
      refl,
      be_value-be_bytes 2 (o.config.min_padding % 65536) (omega arith) ∙ omega arith,
      be_value-be_bytes 2 (o.config.max_padding % 65536) (omega arith) ∙ omega arith,
      refl,
      refl,
    )

-- Each reading of the decoder, for the bytes of an offer.
record Reads (d : List ℕ) (o : EnvelopeOffer) : Type 0 where
  long : length d ≡ 127
  marked : take 9 d ≡ policy_magic
  bound : take 32 (drop 9 d) ≡ o.binding
  tier : get_or (drop 41 d) 0 0 ≡ id o.config.profile
  supported : get_or (drop 41 d) 1 0 ≡ o.supported_profiles
  flag : get_or (drop 41 d) 2 0 ≡ flag_byte o.config.profile_bound
  low : field (drop 41 d) 3 2 ≡ o.config.min_padding
  high : field (drop 41 d) 5 2 ≡ o.config.max_padding
  choice :
      selection_at (get_or (drop 41 d) 7 0) (weights_at 7 (drop 8 (drop 41 d)))
      ≡ ok o.config.selection
  budget :
      padding_budget_at (get_or (drop 63 d) 0 0) (field (drop 63 d) 1 8) (unbudgeted o.config)
      ≡ ok o.config
  outbound : field (drop 63 d) 9 2 ≡ o.outbound_frame_limit
  inbound : field (drop 63 d) 11 2 ≡ o.inbound_frame_limit
  spending : budget_at (drop 63 d) 13 ≡ o.outbound_budget
  earning : budget_at (drop 63 d) 29 ≡ o.inbound_budget
  covered : cover_at (drop 45 (drop 63 d)) ≡ ok o.cover

encode-Reads : (o : EnvelopeOffer) → IsOffer o → Reads (encode o) o
unfolding limits_bytes
encode-Reads o v =
    let b = encode-Blocks o v in
    let tail = selection_bytes o.config.selection ++ limits_bytes o in
    let (t, s, f, lo, hi, tag, behind) = settings_lem o tail v.valid in
    let reads = selection-SelectionReads o.config.selection (limits_bytes o) v.choice in
    let (a, c, e, g, h, _) = padding_budget_lem o.config.padding_budget (directions_bytes o) in
    let (a', c', e', g', h', _) = directions_lem o v in
    record {
      long = b.long;
      marked = b.marked;
      bound = b.bound;
      tier = ap (λ x. get_or x 0 0) b.settings ∙ t;
      supported = ap (λ x. get_or x 1 0) b.settings ∙ s;
      flag = ap (λ x. get_or x 2 0) b.settings ∙ f;
      low = ap (λ x. field x 3 2) b.settings ∙ lo;
      high = ap (λ x. field x 5 2) b.settings ∙ hi;
      choice =
          ap (λ x. selection_at (get_or x 7 0) (weights_at 7 (drop 8 x))) b.settings
          ∙ ap₂ (λ x y. selection_at x (weights_at 7 y)) tag behind
          ∙ reads.reads;
      budget =
          ap (λ x. padding_budget_at (get_or x 0 0) (field x 1 8) (unbudgeted o.config)) b.limits
          ∙ padding_budget_at_lem o.config o.config.padding_budget (directions_bytes o) v.budget;
      outbound = ap (λ x. field x 9 2) b.limits ∙ a ∙ a';
      inbound = ap (λ x. field x 11 2) b.limits ∙ c ∙ c';
      spending = ap (λ x. budget_at x 13) b.limits ∙ e ∙ e';
      earning = ap (λ x. budget_at x 29) b.limits ∙ g ∙ g';
      covered =
          ap (λ x. cover_at (drop 45 x)) b.limits
          ∙ ap cover_at (h ∙ h')
          ∙ (cover_at-cover_bytes o.cover v.covered).0;
    }

selected_lem :
    (c : PhantomOneConfig)
    → validate c ≡ ok tt
    → with_selection
        (with_bound (unbound_config medium c.min_padding c.max_padding) c.profile_bound c.profile)
        c.selection
      ≡ ok (unbudgeted c)
unfolding with_selection
selected_lem c h = ap (λ t. t >> ok (unbudgeted c)) (unbudgeted_valid c h)

decode-Reads : (d : List ℕ) (o : EnvelopeOffer) → IsOffer o → Reads d o → decode d ≡ ok o
unfolding decode
decode-Reads d o v r =
    let c = o.config in
    let (ordered, small) = padding_small c v.valid in
    simp (
      r.long,
      r.marked,
      r.tier,
      (from_id-id c.profile 0).0,
      r.supported,
      v.some_profile,
      v.known,
      v.own,
      r.low,
      r.high,
      plain_valid c.min_padding c.max_padding ordered small,
      r.flag,
      bound_at_lem c.profile_bound c.profile (unbound_config medium c.min_padding c.max_padding)
          refl refl v.unbound,
      r.choice,
      selected_lem c v.valid,
      r.budget,
      r.outbound,
      v.outbound,
      r.inbound,
      v.inbound,
      r.spending,
      v.spending,
      r.earning,
      v.earning,
      v.profiles,
      r.covered,
      r.bound,
    )

-- An offer is encoded to 127 bytes, which decode to the same offer. Its numbers are within the ranges of their types and
-- its parts pass the checks of their constructors (`IsOffer`).
pub decode-encode_offer :
    (o : EnvelopeOffer) → IsOffer o → (length (encode o) ≡ 127) × (decode (encode o) ≡ ok o)
decode-encode_offer o v = let r = encode-Reads o v in (r.long, decode-Reads (encode o) o v r)
