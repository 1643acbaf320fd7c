-- ===== src/Transport/Onion/Bounds.antt =====
-- What a relay that was set up may admit, and how much it may carry.
use shph.Prelude.{
  ℕ, ◌*◌, ◌≤◌, ◌<◌, ◌≡◌, ap, subst, true, List, [], ◌∷◌, All, length, arith, ok, Bool-cases,
  Result-cases, inl, inr,
}
use shph.Core.Cookie.{SocketAddr}
use shph.Transport.Onion.{
  RelayLimits, RelayServerConfig, is_literal, contains, target_set, new_server, validate,
}

abbrev pub IsLiteral : SocketAddr → Type 0
IsLiteral target = is_literal target ≡ true

target_set_lem :
    (set targets : List SocketAddr) {out : List SocketAddr}
    → length set ≤ 64
    → All IsLiteral set
    → target_set set targets ≡ ok out
    → (length out ≤ 64) × All IsLiteral out
unfolding target_set
target_set_lem set [] {out} h l e =
    let same : set ≡ out = ground arith in
    (omega (arith, ap length same), subst (All IsLiteral) same l)
target_set_lem set (target ∷ targets) {out} h l e =
    let literal : is_literal target ≡ true = ground arith in
    elim (Bool-cases (contains set target)) [
      | inl known ↦ target_set_lem set targets {out = out} h l (ground (arith, known))
      | inr fresh ↦
          target_set_lem (target ∷ set) targets {out = out} (ground (arith, fresh)) (literal, l)
            (ground (arith, fresh))
    ]

validate_lem :
    (l : RelayLimits) {out : RelayLimits}
    → validate l ≡ ok out
    → (0 < out.max_circuits)
      × (out.max_circuits ≤ 512)
      × (0 < out.max_bytes_per_circuit)
      × (out.max_bytes_per_circuit ≤ 1024 * 1024 * 1024)
unfolding validate
validate_lem l {out} e =
    let same : l ≡ out = ground arith in
    let circuits : (0 < l.max_circuits) × (l.max_circuits ≤ 512) = (ground arith, ground arith) in
    let bytes : (0 < l.max_bytes_per_circuit) × (l.max_bytes_per_circuit ≤ 1024 * 1024 * 1024) =
      (ground arith, ground arith) in
    let at = ap (λ (t : RelayLimits). t.max_circuits) same in
    let of = ap (λ (t : RelayLimits). t.max_bytes_per_circuit) same in
    (omega arith, omega arith, omega arith, omega arith)

-- A relay that was set up has between one and 64 targets, all of them numeric with a port, between one and
-- 512 circuits, and a quota for each circuit of between one byte and 1 GiB.
pub new_server_bounded :
    (token : List ℕ) (targets : List SocketAddr) (limits : RelayLimits) {c : RelayServerConfig}
    → new_server token targets limits ≡ ok c
    → (0 < length c.allowed_targets)
      × (length c.allowed_targets ≤ 64)
      × All IsLiteral c.allowed_targets
      × (0 < c.limits.max_circuits)
      × (c.limits.max_circuits ≤ 512)
      × (0 < c.limits.max_bytes_per_circuit)
      × (c.limits.max_bytes_per_circuit ≤ 1024 * 1024 * 1024)
unfolding new_server
new_server_bounded token targets limits {c} e = elim (Result-cases (target_set [] targets)) [
  | inr (why, bad) ↦ absurd (ground (arith, bad))
  | inl (set, good) ↦ elim (Result-cases (validate limits)) [
    | inr (why, bad) ↦ absurd (ground (arith, good, bad))
    | inl (checked, fine) ↦
        let (small, literal) = target_set_lem [] targets {out = set} (omega arith) tt good in
        let (a, b, d, f) = validate_lem limits {out = checked} fine in
        let some_target : 0 < length set = ground (arith, good, fine) in
        let made : record { allowed_targets = set; token = token; limits = checked } ≡ c =
          ground (arith, good, fine) in
        subst
          (λ (t : RelayServerConfig).
            (0 < length t.allowed_targets)
            × (length t.allowed_targets ≤ 64)
            × All IsLiteral t.allowed_targets
            × (0 < t.limits.max_circuits)
            × (t.limits.max_circuits ≤ 512)
            × (0 < t.limits.max_bytes_per_circuit)
            × (t.limits.max_bytes_per_circuit ≤ 1024 * 1024 * 1024))
          made (some_target, small, literal, a, b, d, f)
  ]
]
