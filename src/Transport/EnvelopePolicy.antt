-- ===== src/Transport/EnvelopePolicy.antt =====
-- shph-transport/src/envelope_policy.rs: the budgets of a session and the use that is made of them.
-- The children hold the offers of the two peers and their agreement.
pub mod Offer
pub mod Negotiate
pub mod Usage
pub mod Offered
pub mod Choice
pub mod Symmetry
pub mod Mirrors
pub mod Wire
pub mod Parts
pub mod Blocks
pub mod RoundTrip
pub mod Acknowledgement
mod Tests
use shph.Prelude.{
  ℕ, ◌+◌, ◌*◌, ◌/◌, ◌^◌, min, Bool, ◌||◌, List, [], ltb, leb, ◌==◌, if◌then◌else◌, Result, ok, err,
  ◌>>=◌, ◌>>◌, reject_if, ShphError, protocol, resource_exhausted, u64_max,
}
use shph.Transport.Cover.{CoverPolicy}

abbrev pub max_frame_budget : ℕ
max_frame_budget = 2 ^ 48

abbrev pub max_payload_budget : ℕ
max_payload_budget = 2 ^ 60

pub record FrameBudget : Type 0 where
  pub max_frames : ℕ
  pub max_payload_bytes : ℕ

unfoldable pub validate_budget : FrameBudget → Result ShphError (Unit {0})
validate_budget b =
    reject_if
      (b.max_frames == 0
        || ltb max_frame_budget b.max_frames
        || b.max_payload_bytes == 0
        || ltb max_payload_budget b.max_payload_bytes)
      (protocol "invalid directional frame budget")

abbrev pub intersect : FrameBudget → FrameBudget → FrameBudget
intersect b peer = record {
  max_frames = min b.max_frames peer.max_frames;
  max_payload_bytes = min b.max_payload_bytes peer.max_payload_bytes;
}

abbrev pub default_budget : FrameBudget
default_budget = record { max_frames = 2 ^ 32; max_payload_bytes = 2 ^ 40 }

pub record FrameUsage : Type 0 where
  pub frames : ℕ
  pub payload_bytes : ℕ

abbrev pub no_usage : FrameUsage
no_usage = record { frames = 0; payload_bytes = 0 }

-- An error changes nothing.
unfoldable pub reserve : FrameUsage → FrameBudget → ℕ → Result ShphError FrameUsage
reserve u budget bytes = do
  let frames = u.frames + 1
  reject_if (ltb u64_max frames) (resource_exhausted "frame budget exhausted")
  let payload_bytes = u.payload_bytes + bytes
  reject_if (ltb u64_max payload_bytes) (resource_exhausted "payload budget exhausted")
  reject_if (ltb budget.max_frames frames || ltb budget.max_payload_bytes payload_bytes)
      (resource_exhausted "negotiated directional frame budget exhausted")
  ok (record { frames = frames; payload_bytes = payload_bytes })

pub record ReceivedCoverUsage : Type 0 where
  pub bytes : ℕ

unfoldable pub reserve_cover :
    ReceivedCoverUsage → CoverPolicy → ℕ → Result ShphError ReceivedCoverUsage
reserve_cover u policy bytes = do
  let next = u.bytes + bytes
  reject_if (ltb u64_max next) (protocol "cover traffic byte counter overflow")
  reject_if (ltb policy.maximum_bytes next)
      (protocol "cover traffic exceeds absolute policy budget")
  ok (record { bytes = next })

-- The product fits the `u128` of the code.
unfoldable pub cover_budget_allows : CoverPolicy → ℕ → ℕ → Bool
cover_budget_allows policy payload_bytes cover_bytes =
    leb cover_bytes (min (payload_bytes * policy.overhead_percent / 100) policy.maximum_bytes)

unfoldable pub validate_payload : ReceivedCoverUsage → CoverPolicy → ℕ → Result ShphError (Unit {0})
validate_payload u policy payload_bytes =
    if cover_budget_allows policy payload_bytes u.bytes
    then ok tt
    else err (protocol "cover traffic exceeds relative policy budget")
