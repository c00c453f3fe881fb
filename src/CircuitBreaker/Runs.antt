-- ===== src/CircuitBreaker/Runs.antt =====
-- Runs of the circuit breaker with small thresholds.
use barbacane.Common.{◌≡◌, refl, [], ◌∷◌, arith}
use barbacane.CircuitBreaker.{
  CircuitBreaker, CircuitBreakerConfig, closed, open_state, half_open, new, asks, succeeds, fails,
  run,
}
use barbacane.CircuitBreaker.Laws.{IsSound, Inv, run-new-Inv}
use barbacane.CircuitBreaker.Counting.{opens_at_threshold}
use barbacane.CircuitBreaker.Diagram.{recovers_at_threshold, half_open_unlimited, answers}

abbrev config : CircuitBreakerConfig
config = record {
  failure_threshold = 2;
  failure_window = 10;
  reset_timeout = 5;
  success_threshold = 2;
}

config-IsSound : IsSound config
config-IsSound = record {
  failures_pos = omega arith;
  failures_u32 = omega arith;
  successes_pos = omega arith;
  successes_u32 = omega arith;
}

abbrev opened : CircuitBreaker
opened = record {
  config = config;
  failure_count = 2;
  window_start = 3;
  opened_at = 7;
  half_open_successes = 0;
  state = open_state;
}

run-new-Inv_example : Inv (run (new config) (fails 1 1 ∷ fails 2 3 ∷ asks 9 ∷ succeeds 10 ∷ []))
run-new-Inv_example =
    run-new-Inv config (fails 1 1 ∷ fails 2 3 ∷ asks 9 ∷ succeeds 10 ∷ []) config-IsSound

opens_at_threshold_example : (run (new config) (fails 3 3 ∷ fails 8 9 ∷ [])).state ≡ open_state
opens_at_threshold_example =
    opens_at_threshold config 3 3 ((8, 9) ∷ []) config-IsSound (omega arith) (omega arith)
      (omega arith, tt) (omega arith)

recovers_at_threshold_example : (run opened (succeeds 13 ∷ succeeds 14 ∷ [])).state ≡ closed
recovers_at_threshold_example =
    recovers_at_threshold opened 13 (14 ∷ []) refl (omega arith) (omega arith) (omega arith)
      (omega arith)

half_open_unlimited_example :
    answers opened (8 ∷ 12 ∷ 13 ∷ 13 ∷ 20 ∷ [])
    ≡ open_state ∷ open_state ∷ half_open ∷ half_open ∷ half_open ∷ []
half_open_unlimited_example =
    half_open_unlimited opened (8 ∷ 12 ∷ []) (13 ∷ 13 ∷ 20 ∷ []) refl (omega arith) (omega arith)
      (omega arith, (omega arith, tt))
      ((omega arith, omega arith), ((omega arith, omega arith), ((omega arith, omega arith), tt)))
