-- ===== src/Transport/PhantomOne/Writes.antt =====
-- A frame that has a target size is written.
use shph.Prelude.{
  ℕ, ◌+◌, ◌-◌, ◌≤◌, ◌≡◌, sym, ◌∙◌, Option, some, List, length, arith, Result, ok, ShphError,
}
use shph.Transport.PhantomOne.{PhantomOneFrameType, header_bytes}
use shph.Transport.PhantomOne.Encoder.{StdRng, PhantomOneEncoder, target_size, remaining_padding}
use shph.Transport.PhantomOne.Envelope.{encode_with_target_into, encode_into, checked_sequence}
use shph.Transport.PhantomOne.Encoding.{encode-Written}
use shph.Transport.PhantomOne.RoundTrip.{IsWide, length-written}
use shph.Transport.PhantomOne.Selected.{target_size-checked}

answer_of :
    {S : Type 0} (s s' : S) (r : Result ShphError ℕ) (target : ℕ)
    → ◌≡◌ {A = Option (S × Result ShphError ℕ)} (some (s, r)) (some (s', ok target))
    → r ≡ ok target
answer_of s s' r target h = cc

-- With a generator that never fails to fill a buffer, a frame for which a target size is selected is
-- written at that size, within the path's limit.
pub encode_into_succeeds :
    {S : Type 0} (rng : StdRng S)
    → ((s : S) (n : ℕ) → (bytes : List ℕ) × ((rng.try_fill_bytes s n).1 ≡ some bytes))
    → (e : PhantomOneEncoder S) (frame_type : PhantomOneFrameType) (payload : List ℕ) (path_mtu : ℕ)
      {s : S} {target : ℕ}
    → IsWide e
    → target_size rng e (length payload) path_mtu ≡ some (s, ok target)
    → (e' : PhantomOneEncoder S) × (envelope : List ℕ) × (encode_into rng e frame_type payload
          path_mtu
        ≡ some (e', envelope, ok tt))
      × (length envelope ≡ target)
      × (target ≤ path_mtu)
unfolding encode_into encode_with_target_into checked_sequence remaining_padding
encode_into_succeeds rng fills e frame_type payload path_mtu {s} {target} wide h =
    let n = length payload in
    let (s', r, run, sound) = target_size-checked rng e n path_mtu in
    let (sequence, numbered, checked, below) =
      sound target (answer_of s' s r target (sym run ∙ h)) in
    let ready = record e { rng = s } in
    let (padding, full) = fills s (target - (header_bytes + n)) in
    let out = encode_with_target_into rng ready frame_type payload target path_mtu in
    let written : out ≡ (out.0, out.1, ok tt) = ground (arith, checked, full) in
    let w =
      encode-Written rng ready frame_type payload target path_mtu {e' = out.0} {envelope = out.1}
        written in
    (
      out.0,
      out.1,
      ground (arith, h, written),
      length-written ready out.0 frame_type payload target path_mtu out.1
          (record { generation = wide.generation; sequence = wide.sequence }) w,
      below,
    )
