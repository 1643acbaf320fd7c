-- ===== src/Transport/Onion/Tests.antt =====
-- A relay that allows one target, and a circuit whose quota a read exceeds.
use shph.Prelude.{◌+◌, ◌*◌, ◌<◌, ◌≤◌, ◌≡◌, refl, true, some, [], ◌∷◌, replicate, arith, ok}
use shph.Core.Cookie.{SocketAddr, socket_v4}
use shph.Transport.Onion.{
  RelayServerConfig, default_limits, is_literal, new_server, new_path, is_unspecified, validate,
  addr_eq, target_set,
}
use shph.Transport.Onion.Open.{open_request, admitted, admitted-open_request}
use shph.Transport.Onion.Bounds.{new_server_bounded}
use shph.Transport.Onion.Quota.{
  Circuit, Runs, Move, opened, idle, stopped, received, attempting, granted, quota_holds, grant,
}

abbrev target : SocketAddr
target = socket_v4 (127 ∷ 0 ∷ 0 ∷ 1 ∷ []) 8080

abbrev relay : RelayServerConfig
relay = record { allowed_targets = target ∷ []; token = replicate 32 7; limits = default_limits }

relay_made : new_server (replicate 32 7) (target ∷ target ∷ []) default_limits ≡ ok relay
unfolding new_server target_set is_unspecified addr_eq validate
relay_made = refl

admitted-open_request_example : admitted relay (open_request target (replicate 32 7)) ≡ some target
unfolding is_unspecified addr_eq
admitted-open_request_example = admitted-open_request relay target refl refl (omega arith) refl

-- Ten bytes read where six are left.
abbrev after_six : Circuit
after_six = record {
  copied = 6;
  up = record { phase = stopped; written = 6 };
  down = record { phase = idle; written = 0 };
}

six_run : Runs 6 after_six
unfolding grant shph.Transport.Onion.Quota.after_write
six_run =
    Runs.step_up
      (Runs.step_up
        (Runs.step_up
          (Runs.step_up (Runs.step_up Runs.start (Move.receive 10 (omega arith) (omega arith) refl))
            (Move.load 10 0 refl (omega arith)))
          (Move.exchange 10 0 refl (omega arith) refl))
        (Move.write 10 6 refl))
      (Move.settle 10 6 6 refl (omega arith))

quota_holds_example : 6 + 0 ≤ 6
quota_holds_example = quota_holds 6 {c = after_six} six_run

new_server_bounded_example :
    (0 < 1)
    × (1 ≤ 64)
    × ((is_literal target ≡ true) × Unit {0})
    × (0 < 32)
    × (32 ≤ 512)
    × (0 < 64 * 1024 * 1024)
    × (64 * 1024 * 1024 ≤ 1024 * 1024 * 1024)
new_server_bounded_example =
    new_server_bounded (replicate 32 7) (target ∷ target ∷ []) default_limits {c = relay} relay_made
