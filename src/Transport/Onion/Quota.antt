-- ===== src/Transport/Onion/Quota.antt =====
-- The shared quota of a circuit: `relay_copy` runs two `copy_direction` loops on one atomic counter. A
-- step is one read, load, exchange or write of either loop; the steps of the two interleave freely. A
-- relaxed load, and the load of a failed exchange, may give an earlier value of the counter, which only
-- grows; an exchange succeeds only on the value that the counter has.
use shph.Prelude.{ℕ, ◌+◌, ◌-◌, ◌*◌, ◌≤◌, ◌<◌, min, ◌≡◌, not, ◌||◌, leb, ◌==◌, if◌then◌else◌, arith}

abbrev pub relay_copy_buffer_bytes : ℕ
relay_copy_buffer_bytes = 8 * 1024

-- Where a loop stands: before a read, with bytes read, with the counter it believes in, with bytes
-- granted of those read, with these written, and after its end.
pub data Phase : Type 0 where
  idle stopped : Phase
  received : ℕ → Phase
  attempting granted flushed : ℕ → ℕ → Phase

-- Bytes that were granted and are not written yet.
abbrev pub pending : Phase → ℕ
pending idle = 0
pending stopped = 0
pending (received n) = 0
pending (attempting n current) = 0
pending (granted n allowed) = allowed
pending (flushed n allowed) = 0

pub record Direction : Type 0 where
  pub phase : Phase
  pub written : ℕ

-- `byte_limit.saturating_sub(current)`, and how much of the read it admits.
unfoldable pub grant : ℕ → ℕ → ℕ → ℕ
grant byte_limit read current = min read (byte_limit - current)

-- The test behind the write.
unfoldable pub after_write : ℕ → ℕ → ℕ → ℕ → Phase
after_write byte_limit copied read allowed =
    if not (allowed == read) || leb byte_limit copied then stopped else idle

-- One step of a loop: the counter and the loop after it. The weak exchange may fail at any
-- time, and a read or write may fail, a write after a part of its bytes.
pub data Move (byte_limit copied : ℕ) (d : Direction) : ℕ → Direction → Type 0 where
  receive :
      (n : ℕ)
      → 0 < n
      → n ≤ relay_copy_buffer_bytes
      → d.phase ≡ idle
      → Move byte_limit copied d copied (record d { phase = received n })
  close : d.phase ≡ idle → Move byte_limit copied d copied (record d { phase = stopped })
  load :
      (n seen : ℕ)
      → d.phase ≡ received n
      → seen ≤ copied
      → Move byte_limit copied d copied (record d { phase = attempting n seen })
  exhaust :
      (n current : ℕ)
      → d.phase ≡ attempting n current
      → byte_limit - current ≡ 0
      → Move byte_limit copied d copied (record d { phase = stopped })
  exchange :
      (n current : ℕ)
      → d.phase ≡ attempting n current
      → 0 < byte_limit - current
      → copied ≡ current
      → Move byte_limit copied d
          (current + grant byte_limit n current)
          (record d { phase = granted n (grant byte_limit n current) })
  lose :
      (n current seen : ℕ)
      → d.phase ≡ attempting n current
      → 0 < byte_limit - current
      → seen ≤ copied
      → Move byte_limit copied d copied (record d { phase = attempting n seen })
  write :
      (n allowed : ℕ)
      → d.phase ≡ granted n allowed
      → Move byte_limit copied d copied
          (record d { phase = flushed n allowed; written = d.written + allowed })
  settle :
      (n allowed seen : ℕ)
      → d.phase ≡ flushed n allowed
      → seen ≤ copied
      → Move byte_limit copied d copied (record d { phase = after_write byte_limit seen n allowed })
  fail :
      (part : ℕ)
      → part ≤ pending d.phase
      → Move byte_limit copied d copied (record d { phase = stopped; written = d.written + part })

pub record Circuit : Type 0 where
  pub copied : ℕ
  pub up : Direction
  pub down : Direction

abbrev pub opened : Circuit
opened = record {
  copied = 0;
  up = record { phase = idle; written = 0 };
  down = record { phase = idle; written = 0 };
}

pub data Runs (byte_limit : ℕ) : Circuit → Type 0 where
  start : Runs byte_limit opened
  step_up :
      {c : Circuit} {copied : ℕ} {d : Direction}
      → Runs byte_limit c
      → Move byte_limit c.copied c.up copied d
      → Runs byte_limit (record { copied = copied; up = d; down = c.down })
  step_down :
      {c : Circuit} {copied : ℕ} {d : Direction}
      → Runs byte_limit c
      → Move byte_limit c.copied c.down copied d
      → Runs byte_limit (record { copied = copied; up = c.up; down = d })

abbrev taken : Direction → ℕ
taken d = d.written + pending d.phase

-- A step takes no more than the counter grows, and keeps the counter within the limit.
Move-taken :
    (byte_limit copied copied' : ℕ) (d d' : Direction)
    → Move byte_limit copied d copied' d'
    → copied ≤ byte_limit
    → (taken d' + copied ≤ taken d + copied') × (copied' ≤ byte_limit)
unfolding grant after_write
Move-taken byte_limit copied copied' d d' (receive n h k e) small = ground arith
Move-taken byte_limit copied copied' d d' (close e) small = ground arith
Move-taken byte_limit copied copied' d d' (load n seen e old) small = ground arith
Move-taken byte_limit copied copied' d d' (exhaust n current e h) small = ground arith
Move-taken byte_limit copied copied' d d' (exchange n current e h k) small = ground arith
Move-taken byte_limit copied copied' d d' (lose n current seen e h old) small = ground arith
Move-taken byte_limit copied copied' d d' (write n allowed e) small = ground arith
Move-taken byte_limit copied copied' d d' (settle n allowed seen e old) small = ground arith
Move-taken byte_limit copied copied' d d' (fail part h) small = ground arith

Runs-taken :
    (byte_limit : ℕ) {c : Circuit}
    → Runs byte_limit c
    → (taken c.up + taken c.down ≤ c.copied) × (c.copied ≤ byte_limit)
Runs-taken byte_limit start = (omega arith, omega arith)
Runs-taken byte_limit (step_up {c} {copied} {d} r m) =
    let (sum, small) = Runs-taken byte_limit r in
    let (more, below) = Move-taken byte_limit c.copied copied c.up d m small in (omega arith, below)
Runs-taken byte_limit (step_down {c} {copied} {d} r m) =
    let (sum, small) = Runs-taken byte_limit r in
    let (more, below) = Move-taken byte_limit c.copied copied c.down d m small in
    (omega arith, below)

-- However the two loops of a circuit interleave, the bytes that they have written together never exceed
-- the limit of the circuit.
pub quota_holds :
    (byte_limit : ℕ) {c : Circuit} → Runs byte_limit c → c.up.written + c.down.written ≤ byte_limit
quota_holds byte_limit {c} r = omega (arith, Runs-taken byte_limit r)
