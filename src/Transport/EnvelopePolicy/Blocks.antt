-- ===== src/Transport/EnvelopePolicy/Blocks.antt =====
-- The bytes of an offer cut into parts, and the configuration put together by the decoder.
use Prim.Native.Nat.{bit_and}
use shph.Prelude.{
  ℕ, ◌+◌, ◌≤◌, ◌<◌, ◌^◌, ◌≡◌, refl, ap, ◌∙◌, Bool, true, false, Option, none, some, List, [], ◌∷◌,
  ◌++◌, length, get_or, take, drop, ◌==◌, arith, ok, length-append, take-append, drop-append,
  drop-drop,
}
use shph.Prelude.Bytes.{be_bytes, be_value-be_bytes}
use shph.Obfuscation.{ProfileTier, medium, id}
use shph.Transport.PhantomOne
use shph.Transport.PhantomOne.{
  PhantomOneConfig, SizeSelection, first_fit, weighted, validate, check_selection, weights_fit,
  unbound_config, with_profile, with_selection, with_padding_budget, validate_path_mtu,
}
use shph.Transport.PhantomOne.Wire.{field}
use shph.Transport.EnvelopePolicy.{FrameBudget, validate_budget}
use shph.Transport.EnvelopePolicy.Offer.{EnvelopeOffer, validate_cover}
use shph.Transport.EnvelopePolicy.Wire.{
  selection_bytes, padding_budget_bytes, padding_budget_at, budget_at, cover_bytes, settings_bytes,
  limits_bytes, directions_bytes, encode, flag_byte, policy_magic, check_profiles, bound_at,
  unknown_profiles,
}
use shph.Transport.EnvelopePolicy.Parts.{
  IsSelection, selection-SelectionReads, padding_budget_lem, cover_at-cover_bytes,
}

-- What the constructors of an offer establish.
pub record IsOffer (o : EnvelopeOffer) : Type 0 where
  pub bound : length o.binding ≡ 32
  pub some_profile : (o.supported_profiles == 0) ≡ false
  pub known : (bit_and o.supported_profiles unknown_profiles == 0) ≡ true
  pub own : (bit_and o.supported_profiles (2 ^ id o.config.profile) == 0) ≡ false
  pub unbound : o.config.profile_bound ≡ false → o.config.profile ≡ medium
  pub valid : validate o.config ≡ ok tt
  pub choice : IsSelection o.config.selection
  pub budget : (b : ℕ) → o.config.padding_budget ≡ some b → b < 2 ^ 64
  pub outbound : validate_path_mtu o.outbound_frame_limit ≡ ok tt
  pub inbound : validate_path_mtu o.inbound_frame_limit ≡ ok tt
  pub spending : validate_budget o.outbound_budget ≡ ok tt
  pub earning : validate_budget o.inbound_budget ≡ ok tt
  pub profiles : check_profiles o.config o.supported_profiles (0 ∷ 1 ∷ 2 ∷ 3 ∷ 4 ∷ 5 ∷ []) ≡ ok tt
  pub covered : validate_cover o.cover ≡ ok tt

pub padding_small :
    (c : PhantomOneConfig)
    → validate c ≡ ok tt
    → (c.min_padding ≤ c.max_padding) × (c.max_padding ≤ 4096)
unfolding validate
padding_small c h = (ground arith, ground arith)

-- The configuration, put together in the order of the decoder.
pub plain_valid :
    (low high : ℕ)
    → low ≤ high
    → high ≤ 4096
    → PhantomOne.new low high ≡ ok (unbound_config medium low high)
unfolding PhantomOne.new validate check_selection
plain_valid low high h k = ground arith

abbrev pub with_bound : PhantomOneConfig → Bool → ProfileTier → PhantomOneConfig
with_bound c bound tier = record c { profile = tier; profile_bound = bound }

pub bound_at_lem :
    (bound : Bool) (tier : ProfileTier) (c : PhantomOneConfig)
    → c.profile ≡ medium
    → c.profile_bound ≡ false
    → (bound ≡ false → tier ≡ medium)
    → bound_at (flag_byte bound) tier c ≡ ok (with_bound c bound tier)
unfolding bound_at with_profile
bound_at_lem true tier c p b h = refl
bound_at_lem false tier c p b h = let plain : tier ≡ medium = h refl in ground (arith, plain, p, b)

abbrev pub unbudgeted : PhantomOneConfig → PhantomOneConfig
unbudgeted c = record c { padding_budget = none }

check_selection_same :
    (c : PhantomOneConfig) (choice : SizeSelection)
    → check_selection (unbudgeted c) choice ≡ check_selection c choice
unfolding check_selection weights_fit
check_selection_same c first_fit = refl
check_selection_same c (weighted weights) = refl

pub unbudgeted_valid : (c : PhantomOneConfig) → validate c ≡ ok tt → validate (unbudgeted c) ≡ ok tt
unfolding validate
unbudgeted_valid c h = ground (arith, check_selection_same c c.selection)

pub padding_budget_at_lem :
    (c : PhantomOneConfig) (b : Option ℕ) (rest : List ℕ)
    → ((n : ℕ) → b ≡ some n → n < 2 ^ 64)
    → padding_budget_at
        (get_or (padding_budget_bytes b ++ rest) 0 0)
        (field (padding_budget_bytes b ++ rest) 1 8)
        (unbudgeted c)
      ≡ ok (record c { padding_budget = b })
unfolding padding_budget_at with_padding_budget be_bytes
padding_budget_at_lem c none rest h =
    ap (λ t. padding_budget_at 0 t (unbudgeted c)) (be_value-be_bytes 8 0 (omega arith))
padding_budget_at_lem c (some n) rest h =
    ap (λ t. ok (record c { padding_budget = some t })) (be_value-be_bytes 8 n (h n refl))

-- The bytes of an offer, cut where its parts begin.
pub record Blocks (bytes : List ℕ) (o : EnvelopeOffer) (tail : List ℕ) : Type 0 where
  pub long : length bytes ≡ 127
  pub marked : take 9 bytes ≡ policy_magic
  pub bound : take 32 (drop 9 bytes) ≡ o.binding
  pub settings : drop 41 bytes ≡ settings_bytes o ++ tail
  pub choice : tail ≡ selection_bytes o.config.selection ++ limits_bytes o
  pub limits : drop 63 bytes ≡ limits_bytes o

length-settings_bytes : (o : EnvelopeOffer) → length (settings_bytes o) ≡ 7
unfolding settings_bytes be_bytes
length-settings_bytes o = refl

-- The widths that the checks of limits and budgets leave.
mtu_width : (n : ℕ) → validate_path_mtu n ≡ ok tt → n < 65536
unfolding validate_path_mtu
mtu_width n h = ground arith

budget_width :
    (b : FrameBudget)
    → validate_budget b ≡ ok tt
    → (b.max_frames < 2 ^ 64) × (b.max_payload_bytes < 2 ^ 64)
unfolding validate_budget
budget_width b h = (ground arith, ground arith)

budget_read :
    (b : FrameBudget) (frames payload : ℕ)
    → frames ≡ b.max_frames
    → payload ≡ b.max_payload_bytes
    → record { max_frames = frames; max_payload_bytes = payload } ≡ b
budget_read b frames payload e h = ground arith

pub directions_lem :
    (o : EnvelopeOffer)
    → IsOffer o
    → (field (directions_bytes o) 0 2 ≡ o.outbound_frame_limit)
      × (field (directions_bytes o) 2 2 ≡ o.inbound_frame_limit)
      × (budget_at (directions_bytes o) 4 ≡ o.outbound_budget)
      × (budget_at (directions_bytes o) 20 ≡ o.inbound_budget)
      × (drop 36 (directions_bytes o) ≡ cover_bytes o.cover)
      × (length (directions_bytes o) ≡ 36 + length (cover_bytes o.cover))
unfolding directions_bytes be_bytes
directions_lem o v =
    let (a, b) = budget_width o.outbound_budget v.spending in
    let (c, d) = budget_width o.inbound_budget v.earning in
    (
      be_value-be_bytes 2 o.outbound_frame_limit
          (omega (arith, mtu_width o.outbound_frame_limit v.outbound)),
      be_value-be_bytes 2 o.inbound_frame_limit
          (omega (arith, mtu_width o.inbound_frame_limit v.inbound)),
      budget_read o.outbound_budget _ _
          (be_value-be_bytes 8 o.outbound_budget.max_frames (omega (arith, a)))
          (be_value-be_bytes 8 o.outbound_budget.max_payload_bytes (omega (arith, b))),
      budget_read o.inbound_budget _ _
          (be_value-be_bytes 8 o.inbound_budget.max_frames (omega (arith, c)))
          (be_value-be_bytes 8 o.inbound_budget.max_payload_bytes (omega (arith, d))),
      refl,
      omega arith,
    )

length-limits_bytes : (o : EnvelopeOffer) → IsOffer o → length (limits_bytes o) ≡ 64
unfolding limits_bytes
length-limits_bytes o v =
    let (_, _, _, _, _, front) = padding_budget_lem o.config.padding_budget (directions_bytes o) in
    let (_, _, _, _, _, back) = directions_lem o v in
    omega (arith, front, back, (cover_at-cover_bytes o.cover v.covered).1)

pub encode-Blocks :
    (o : EnvelopeOffer)
    → IsOffer o
    → Blocks (encode o) o (selection_bytes o.config.selection ++ limits_bytes o)
unfolding encode
encode-Blocks o v =
    let choice = selection_bytes o.config.selection in
    let limits = limits_bytes o in
    let reads = selection-SelectionReads o.config.selection limits v.choice in
    let tail : drop 41 (encode o) ≡ settings_bytes o ++ (choice ++ limits) =
      drop-drop 9 32 41 (encode o) refl
      ∙ drop-append 32 o.binding (settings_bytes o ++ (choice ++ limits)) v.bound in
    record {
      long = omega (
        arith,
        length-append o.binding (settings_bytes o ++ (choice ++ limits)),
        length-append (settings_bytes o) (choice ++ limits),
        length-append choice limits,
        v.bound,
        reads.long,
        length-settings_bytes o,
        length-limits_bytes o v,
      );
      marked = refl;
      bound = take-append 32 o.binding (settings_bytes o ++ (choice ++ limits)) v.bound;
      settings = tail;
      choice = refl;
      limits =
          drop-drop 41 22 63 (encode o) refl
          ∙ ap (drop 22) tail
          ∙ drop-drop 7 15 22 (settings_bytes o ++ (choice ++ limits)) refl
          ∙ ap (drop 15)
              (drop-append 7 (settings_bytes o) (choice ++ limits) (length-settings_bytes o))
          ∙ drop-append 15 choice limits reads.long;
    }
