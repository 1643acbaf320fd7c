-- ===== src/Transport/PhantomOne/Decoder.antt =====
-- `PhantomOneDecoder`: replay window, padding budget and decoding. An error changes nothing, so an
-- operation on `&mut self` returns the new decoder with its answer, or the error alone.
use Prim.Native.Nat.{bit_and, bit_or}
use shph.Prelude.{
  ℕ, ◌+◌, ◌-◌, ◌*◌, ◌%◌, ◌^◌, Bool, false, not, ◌&&◌, Option, none, some, List, ◌++◌, length, take,
  drop, ltb, leb, ◌==◌, if◌then◌else◌, Result, ok, ◌>>=◌, ◌>>◌, reject_if, ShphError, config,
  protocol, u64_max,
}
use shph.Transport.PhantomOne.{
  PhantomOneConfig, PhantomOneFrame, header_bytes, default_replay_window, default_config, validate,
}
use shph.Transport.PhantomOne.Wire.{DecodedPhantomOneParts, decode_parts, to_frame}

pub record PhantomOneDecoder : Type 0 where
  pub generation : ℕ
  pub window_size : ℕ
  pub config : PhantomOneConfig
  pub highest_sequence : Option ℕ
  pub seen_bitmap : ℕ
  pub padding_bytes_used : ℕ

abbrev pub fresh_decoder : ℕ → PhantomOneConfig → ℕ → PhantomOneDecoder
fresh_decoder generation c window_size = record {
  generation = generation;
  window_size = window_size;
  config = c;
  highest_sequence = none;
  seen_bitmap = 0;
  padding_bytes_used = 0;
}

unfoldable pub with_config_and_window :
    ℕ → PhantomOneConfig → ℕ → Result ShphError PhantomOneDecoder
with_config_and_window generation c window_size = do
  validate c
  reject_if (not (leb 1 window_size && leb window_size default_replay_window))
      (config "Phantom One replay window must be between 1 and 64")
  ok (fresh_decoder generation c window_size)

unfoldable pub with_config : ℕ → PhantomOneConfig → Result ShphError PhantomOneDecoder
with_config generation c = with_config_and_window generation c default_replay_window

abbrev pub new : ℕ → PhantomOneDecoder
new generation = fresh_decoder generation default_config default_replay_window

unfoldable pub with_window : ℕ → ℕ → Result ShphError PhantomOneDecoder
with_window generation window_size = with_config_and_window generation default_config window_size

unfoldable pub reset : PhantomOneDecoder → PhantomOneDecoder
reset d = record d { highest_sequence = none; seen_bitmap = 0 }

abbrev pub over_budget : Option ℕ → ℕ → Bool
over_budget none next = false
over_budget (some budget) next = ltb budget next

unfoldable pub next_padding_bytes : PhantomOneDecoder → ℕ → Result ShphError ℕ
next_padding_bytes d padding_len = do
  let next = d.padding_bytes_used + padding_len
  reject_if (ltb u64_max next) (protocol "Phantom One session padding counter overflow")
  reject_if (over_budget d.config.padding_budget next)
      (protocol "Phantom One session padding budget exceeded")
  ok next

unfoldable pub window_mask : ℕ → ℕ
window_mask window_size = if window_size == 64 then u64_max else 2 ^ window_size - 1

-- A sequence number above the highest.
unfoldable pub accept_newer : PhantomOneDecoder → ℕ → ℕ → PhantomOneDecoder
accept_newer d highest sequence =
    let shift = sequence - highest in
    record d {
      highest_sequence = some sequence;
      seen_bitmap =
          if leb d.window_size shift
          then 1
          else bit_and (bit_or (d.seen_bitmap * 2 ^ shift % 2 ^ 64) 1) (window_mask d.window_size);
    }

-- A sequence number that is not above the highest.
unfoldable pub accept_older : PhantomOneDecoder → ℕ → ℕ → Result ShphError PhantomOneDecoder
accept_older d highest sequence = do
  let distance = highest - sequence
  reject_if (leb d.window_size distance) (protocol "Phantom One sequence is outside replay window")
  reject_if (not (bit_and d.seen_bitmap (2 ^ distance) == 0))
      (protocol "Phantom One replay detected")
  ok (record d { seen_bitmap = bit_or d.seen_bitmap (2 ^ distance) })

unfoldable pub accept_from : Option ℕ → PhantomOneDecoder → ℕ → Result ShphError PhantomOneDecoder
accept_from none d sequence = ok (record d { highest_sequence = some sequence; seen_bitmap = 1 })
accept_from (some highest) d sequence =
    if ltb highest sequence
    then ok (accept_newer d highest sequence)
    else accept_older d highest sequence

unfoldable pub accept_sequence : PhantomOneDecoder → ℕ → Result ShphError PhantomOneDecoder
accept_sequence d sequence = accept_from d.highest_sequence d sequence

-- Decoding and acceptance; `accept_sequence` does not touch the padding counter.
unfoldable pub accept_parts :
    PhantomOneDecoder → DecodedPhantomOneParts → Result ShphError PhantomOneDecoder
accept_parts d parts = do
  next ← next_padding_bytes d parts.padding_len
  accepted ← accept_sequence d parts.sequence
  ok (record accepted { padding_bytes_used = next })

unfoldable pub decode :
    PhantomOneDecoder → List ℕ → ℕ → Result ShphError (PhantomOneDecoder × PhantomOneFrame)
decode d datagram path_mtu = do
  parts ← decode_parts datagram d.generation path_mtu d.config
  accepted ← accept_parts d parts
  ok (accepted, to_frame parts datagram)

-- The buffer afterwards: the payload, moved to the front.
unfoldable pub decode_in_place :
    PhantomOneDecoder → List ℕ → ℕ → Result ShphError (PhantomOneDecoder × List ℕ)
decode_in_place d datagram path_mtu = do
  parts ← decode_parts datagram d.generation path_mtu d.config
  accepted ← accept_parts d parts
  ok (accepted, take parts.payload_len (moved parts.payload_end datagram))
  where
    -- `copy_within(24..end, 0)`
    moved : ℕ → List ℕ → List ℕ
    moved end datagram =
        let body = take (end - header_bytes) (drop header_bytes datagram) in
        body ++ drop (length body) datagram
