-- ===== src/Transport/EnvelopePolicy/Usage.antt =====
-- What a session may use: reservations stay within the budget and add up.
use shph.Prelude.{ℕ, ◌+◌, ◌≤◌, ◌≡◌, List, [], ◌∷◌, length, arith, ok, err, Result-cases, inl, inr}
use shph.Transport.EnvelopePolicy.{FrameBudget, FrameUsage, no_usage, reserve}

-- The use after some requests, and the requests that were granted. A refused one is passed over.
unfoldable pub reserve_all : FrameUsage → FrameBudget → List ℕ → FrameUsage
reserve_all u budget [] = u
reserve_all u budget (n ∷ ns) = elim (reserve u budget n) [
  | ok u' ↦ reserve_all u' budget ns
  | err why ↦ reserve_all u budget ns
]

unfoldable pub granted : FrameUsage → FrameBudget → List ℕ → List ℕ
granted u budget [] = []
granted u budget (n ∷ ns) = elim (reserve u budget n) [
  | ok u' ↦ n ∷ granted u' budget ns
  | err why ↦ granted u budget ns
]

abbrev pub total : List ℕ → ℕ
total [] = 0
total (n ∷ ns) = n + total ns

abbrev pub Within : FrameUsage → FrameBudget → Type 0
Within u budget = (u.frames ≤ budget.max_frames) × (u.payload_bytes ≤ budget.max_payload_bytes)

reserve_lem :
    (u u' : FrameUsage) (budget : FrameBudget) (n : ℕ)
    → reserve u budget n ≡ ok u'
    → (u'.frames ≡ u.frames + 1) × (u'.payload_bytes ≡ u.payload_bytes + n) × Within u' budget
unfolding reserve
reserve_lem u u' budget n h = ground arith

reserve_all-total :
    (u : FrameUsage) (budget : FrameBudget) (ns : List ℕ)
    → Within u budget
    → ((reserve_all u budget ns).frames ≡ u.frames + length (granted u budget ns))
      × ((reserve_all u budget ns).payload_bytes ≡ u.payload_bytes + total (granted u budget ns))
      × Within (reserve_all u budget ns) budget
unfolding reserve_all granted
reserve_all-total u budget [] h = (omega arith, omega arith, h)
reserve_all-total u budget (n ∷ ns) h = elim (Result-cases (reserve u budget n)) [
  | inl (u', taken) ↦
      let (one, more, inside) = reserve_lem u u' budget n taken in
      ground (arith, taken, reserve_all-total u' budget ns inside)
  | inr (why, refused) ↦ ground (arith, refused, reserve_all-total u budget ns h)
]

-- From no use at all, whatever is asked for: the frames and payload bytes counted are those that were
-- granted, and both stay within the negotiated budget.
pub usage_accounts :
    (budget : FrameBudget) (ns : List ℕ)
    → ((reserve_all no_usage budget ns).frames ≡ length (granted no_usage budget ns))
      × ((reserve_all no_usage budget ns).payload_bytes ≡ total (granted no_usage budget ns))
      × (length (granted no_usage budget ns) ≤ budget.max_frames)
      × (total (granted no_usage budget ns) ≤ budget.max_payload_bytes)
usage_accounts budget ns =
    ground (arith, reserve_all-total no_usage budget ns (omega arith, omega arith))
