-- ===== src/Transport/PhantomOne/Delivery.antt =====
-- A session: every frame that the encoder writes is decoded, in order, to what was sent.
use shph.Prelude.{
  ℕ, ◌+◌, ◌*◌, ◌≤◌, ◌<◌, ◌^◌, ◌≡◌, refl, ap, subst, Option, none, some, List, [], ◌∷◌, length,
  arith, ok, err, Result-cases, inl, inr, u64_max,
}
use shph.Transport.PhantomOne.{PhantomOneConfig, PhantomOneFrame, PhantomOneFrameType}
use shph.Transport.PhantomOne.Encoder.{
  StdRng, PhantomOneEncoder, from_seed_with_config, from_validated_config,
}
use shph.Transport.PhantomOne.Envelope.{encode_with_target_into}
use shph.Transport.PhantomOne.Decoder.{
  PhantomOneDecoder, decode, fresh_decoder, with_config_and_window,
}
use shph.Transport.PhantomOne.Encoding.{encode-Written, encode_refused}
use shph.Transport.PhantomOne.RoundTrip.{IsWide, frame_of}
use shph.Transport.PhantomOne.Session.{
  nothing_spent, InSync, decode_step, IsWide-after, metrics_after, spent_bound,
}

pub record Request : Type 0 where
  pub frame_type : PhantomOneFrameType
  pub payload : List ℕ
  pub target_len : ℕ
  pub path_mtu : ℕ

-- A datagram with the limit of its path, and the frame it was written for.
pub record Datagram : Type 0 where
  pub bytes : List ℕ
  pub path_mtu : ℕ
  pub frame : PhantomOneFrame

number : Option ℕ → ℕ
number none = 0
number (some s) = s

module _ {S : Type 0} (rng : StdRng S) where
  -- The datagrams of the requests that the encoder did not refuse.
  unfoldable pub send_all : PhantomOneEncoder S → List Request → List Datagram
  unfolding number
  send_all e [] = []
  send_all e (q ∷ qs) =
      let (e', envelope, answer) =
        encode_with_target_into rng e q.frame_type q.payload q.target_len q.path_mtu in
      let rest = send_all e' qs in
      elim answer [
        | err why ↦ rest
        | ok _ ↦
            record {
              bytes = envelope;
              path_mtu = q.path_mtu;
              frame =
                  frame_of e.config e.generation q.frame_type (number e.next_sequence) q.payload
                    q.target_len;
            }
            ∷ rest
      ]

-- The decoder takes the datagrams one after the other and gives the frames.
abbrev pub Delivers : PhantomOneDecoder → List Datagram → Type 0
Delivers d [] = Unit {0}
Delivers d (sent ∷ rest) =
    (d' : PhantomOneDecoder) × (decode d sent.bytes sent.path_mtu ≡ ok (d', sent.frame))
    × Delivers d' rest

refused-InSync :
    {S : Type 0} (e : PhantomOneEncoder S) (s : S) (d : PhantomOneDecoder)
    → InSync e d
    → InSync (record e { rng = s }) d
refused-InSync e s d sync = record {
  generation = sync.generation;
  config = sync.config;
  padding = sync.padding;
  window = sync.window;
  behind = sync.behind;
  funded = sync.funded;
}

refused-IsWide :
    {S : Type 0} (e : PhantomOneEncoder S) (s : S) → IsWide e → IsWide (record e { rng = s })
refused-IsWide e s wide = record { generation = wide.generation; sequence = wide.sequence }

module _ {S : Type 0} (rng : StdRng S) where
  -- An encoder and a decoder that agree on generation, configuration and padding spent, where the decoder
  -- has seen no number that the encoder has still to use: whatever frames the encoder is asked for,
  -- refused ones among them, the decoder accepts every datagram it writes, in order, and gives back
  -- the frame that was asked for. The padding of all frames must fit 64 bits.
  pub send_all-Delivers :
      (e : PhantomOneEncoder S) (d : PhantomOneDecoder) (requests : List Request)
      → IsWide e
      → InSync e d
      → e.metrics.padding_bytes + 4096 * length requests ≤ u64_max
      → Delivers d (send_all rng e requests)
  unfolding send_all number
  send_all-Delivers e d [] wide sync room = tt
  send_all-Delivers e d (q ∷ qs) wide sync room =
      let out = encode_with_target_into rng e q.frame_type q.payload q.target_len q.path_mtu in
      elim (Result-cases out.2) [
        | inr (why, failed) ↦
            let (_, kept) =
              encode_refused rng e q.frame_type q.payload q.target_len q.path_mtu {e' = out.0}
                {envelope = out.1} {why = why} (ap (λ r. (out.0, out.1, r)) failed) in
            let rest : Delivers d (send_all rng (record e { rng = out.0.rng }) qs) =
              send_all-Delivers (record e { rng = out.0.rng }) d qs
                (refused-IsWide e out.0.rng wide) (refused-InSync e out.0.rng d sync)
                (omega arith) in
            let sent : send_all rng (record e { rng = out.0.rng }) qs ≡ send_all rng e (q ∷ qs) =
              ground (arith, failed, ap (λ t. send_all rng t qs) kept) in
            subst (Delivers d) sent rest
        | inl (_, done) ↦
            let w =
              encode-Written rng e q.frame_type q.payload q.target_len q.path_mtu {e' = out.0}
                {envelope = out.1} (ap (λ r. (out.0, out.1, r)) done) in
            let (d', decoded, sync') =
              decode_step e out.0 q.frame_type q.payload q.target_len q.path_mtu out.1 wide
                (omega arith) w d sync in
            let frame =
              frame_of e.config e.generation q.frame_type w.sequence q.payload q.target_len in
            let rest : Delivers d' (send_all rng out.0 qs) =
              send_all-Delivers out.0 d' qs
                (IsWide-after e out.0 q.frame_type q.payload q.target_len q.path_mtu out.1 wide
                  (omega arith) w)
                sync'
                (omega (
                  arith,
                  metrics_after e out.0 q.frame_type q.payload q.target_len q.path_mtu out.1 wide
                      (omega arith) w,
                  spent_bound e out.0 q.frame_type q.payload q.target_len q.path_mtu out.1 wide
                      (omega arith) w,
                )) in
            let numbered : number e.next_sequence ≡ w.sequence = ap number w.allowed.numbered in
            let first : Datagram = record { bytes = out.1; path_mtu = q.path_mtu; frame = frame } in
            let delivered : Delivers d (first ∷ send_all rng out.0 qs) = (d', decoded, rest) in
            let sent : first ∷ send_all rng out.0 qs ≡ send_all rng e (q ∷ qs) =
              ground (arith, done, numbered) in
            subst (Delivers d) sent delivered
      ]

-- A new encoder and a new decoder of the same generation and configuration, whatever the window: the decoder
-- accepts every datagram that the encoder writes, in order, and gives back the frame that was asked
-- for; frames that the encoder refuses are passed over. The padding of all frames must fit 64 bits.
pub new_session-Delivers :
    {S : Type 0} (rng : StdRng S) (generation : ℕ) (seeded : S) (c : PhantomOneConfig) (w : ℕ)
    {e : PhantomOneEncoder S} {d : PhantomOneDecoder} (requests : List Request)
    → from_seed_with_config generation seeded c ≡ ok e
    → with_config_and_window generation c w ≡ ok d
    → generation < 2 ^ 32
    → 4096 * length requests ≤ u64_max
    → Delivers d (send_all rng e requests)
unfolding from_seed_with_config with_config_and_window
new_session-Delivers rng generation seeded c w {e} {d} requests encoder decoder narrow room =
    let e0 = from_validated_config generation seeded c in
    let d0 = fresh_decoder generation c w in
    let same_e : e0 ≡ e = ground arith in
    let same_d : d0 ≡ d = ground arith in
    let positive : 0 < w = ground arith in
    let delivered : Delivers d0 (send_all rng e0 requests) =
      send_all-Delivers rng e0 d0 requests
        (record { generation = narrow; sequence = λ s h. ground arith })
        (record {
          generation = refl;
          config = refl;
          padding = refl;
          window = positive;
          behind = tt;
          funded = nothing_spent c.padding_budget;
        })
        (omega arith) in
    subst (λ t. Delivers t (send_all rng e requests)) same_d
      (subst (λ t. Delivers d0 (send_all rng t requests)) same_e delivered)
