-- ===== src/Transport/PhantomOne/Progress.antt =====
-- The states an encoder reaches: its padding stays within the budget and its numbers increase.
use shph.Prelude.{
  ℕ, ◌+◌, ◌-◌, ◌≤◌, ◌<◌, ◌^◌, ◌≡◌, refl, sym, ◌∙◌, subst, min, Option, none, some, List, length,
  arith, Result, ok, err, ShphError, u64_max,
}
use shph.Transport.PhantomOne.{PhantomOneFrameType, header_bytes}
use shph.Transport.PhantomOne.Encoder.{
  StdRng, PhantomOneEncoder, remaining_padding, remaining_under,
}
use shph.Transport.PhantomOne.Envelope.{encode_with_target_into, counted}
use shph.Transport.PhantomOne.Wire.{field}
use shph.Transport.PhantomOne.Encoding.{encode-Written, encode_refused}
use shph.Transport.PhantomOne.RoundTrip.{IsWide, sequence-written}
use shph.Transport.PhantomOne.Session.{Funded}

-- The calls that lead from one encoder to another, the refused ones among them.
pub data Sends {S : Type 0} (rng : StdRng S) (start : PhantomOneEncoder S)
    : PhantomOneEncoder S → Type 0 where
  here : Sends rng start start
  tried :
      {e e' : PhantomOneEncoder S}
      → Sends rng start e
      → (frame_type : PhantomOneFrameType) (payload : List ℕ) (target path_mtu : ℕ)
        (envelope : List ℕ) (answer : Result ShphError (Unit {0}))
      → encode_with_target_into rng e frame_type payload target path_mtu ≡ (e', envelope, answer)
      → Sends rng start e'

-- What every call preserves, for an encoder whose next number is above `s`.
record Keeps {S : Type 0} (start : PhantomOneEncoder S) (least : ℕ) (e : PhantomOneEncoder S)
    : Type 0 where
  config : e.config ≡ start.config
  generation : e.generation ≡ start.generation
  funded : Funded e.config.padding_budget e.metrics.padding_bytes
  above : (s : ℕ) → e.next_sequence ≡ some s → (least ≤ s) × (s < 2 ^ 64)

Funded-after :
    (o : Option ℕ) (used n : ℕ)
    → Funded o used
    → n ≤ remaining_under o used
    → Funded o (min (used + n) u64_max)
unfolding remaining_under
Funded-after none used n h k = tt
Funded-after (some budget) used n h k = omega arith

module _ {S : Type 0} (rng : StdRng S) (start : PhantomOneEncoder S) (least : ℕ) where
  tried-Keeps :
      (e e' : PhantomOneEncoder S) (frame_type : PhantomOneFrameType) (payload : List ℕ)
      (target path_mtu : ℕ) (envelope : List ℕ) (answer : Result ShphError (Unit {0}))
      → encode_with_target_into rng e frame_type payload target path_mtu ≡ (e', envelope, answer)
      → Keeps start least e
      → Keeps start least e'
  unfolding remaining_padding counted
  tried-Keeps e e' frame_type payload target path_mtu envelope (err why) h k =
      let (_, kept) =
        encode_refused rng e frame_type payload target path_mtu {e' = e'} {envelope = envelope}
          {why = why} h in
      subst (Keeps start least) (sym kept) (record {
        config = k.config;
        generation = k.generation;
        funded = k.funded;
        above = k.above;
      })
  tried-Keeps e e' frame_type payload target path_mtu envelope (ok tt) h k =
      let w =
        encode-Written rng e frame_type payload target path_mtu {e' = e'} {envelope = envelope} h in
      let n = target - (header_bytes + length payload) in
      record {
        config = w.config ∙ k.config;
        generation = w.generation ∙ k.generation;
        funded = rw w.config (
            rw w.metrics (
              Funded-after e.config.padding_budget e.metrics.padding_bytes n k.funded
                w.allowed.budgeted));
        above = λ s next. ground (arith, w.next, k.above w.sequence w.allowed.numbered);
      }

  Sends-Keeps :
      {e : PhantomOneEncoder S} → Keeps start least start → Sends rng start e → Keeps start least e
  Sends-Keeps k here = k
  Sends-Keeps k (tried {e} {e'} path frame_type payload target path_mtu envelope answer h) =
      tried-Keeps e e' frame_type payload target path_mtu envelope answer h (Sends-Keeps k path)

-- An envelope that an encoder writes later, after any calls, carries a greater sequence number. The
-- encoder's generation has 32 bits and its next number 64 (`IsWide`), and the padding it has counted is within
-- its budget (`Funded`), as for every encoder that its constructors make.
pub sequence_increases :
    {S : Type 0} (rng : StdRng S) (e e' later last : PhantomOneEncoder S)
    (frame_type frame_type' : PhantomOneFrameType) (payload payload' : List ℕ)
    (target target' path_mtu path_mtu' : ℕ) (first second : List ℕ)
    → IsWide e
    → Funded e.config.padding_budget e.metrics.padding_bytes
    → encode_with_target_into rng e frame_type payload target path_mtu ≡ (e', first, ok tt)
    → Sends rng e' later
    → encode_with_target_into rng later frame_type' payload' target' path_mtu'
      ≡ (last, second, ok tt)
    → field first 11 8 < field second 11 8
sequence_increases rng e e' later last frame_type frame_type' payload payload' target target'
      path_mtu path_mtu' first second wide funded one path two =
    let w =
      encode-Written rng e frame_type payload target path_mtu {e' = e'} {envelope = first} one in
    let w' =
      encode-Written rng later frame_type' payload' target' path_mtu' {e' = last}
        {envelope = second} two in
    let s = w.sequence in
    let word = wide.sequence s w.allowed.numbered in
    let before : Keeps e s e = record {
      config = refl;
      generation = refl;
      funded = funded;
      above = λ t next. ground (arith, w.allowed.numbered, word);
    } in
    let k = tried-Keeps rng e s e e' frame_type payload target path_mtu first (ok tt) one before in
    let after : Keeps e' (s + 1) e' = record {
      config = refl;
      generation = refl;
      funded = k.funded;
      above = λ t next. ground (arith, w.next, word);
    } in
    let k' = Sends-Keeps rng e' (s + 1) after path in
    let wide' : IsWide later = record {
      generation = omega (arith, k'.generation, w.generation, wide.generation);
      sequence = λ t next. (k'.above t next).1;
    } in
    omega (
      arith,
      sequence-written e e' frame_type payload target path_mtu first wide w,
      sequence-written later last frame_type' payload' target' path_mtu' second wide' w',
      (k'.above w'.sequence w'.allowed.numbered).0,
    )
