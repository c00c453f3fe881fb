-- ===== src/CircuitBreaker/Laws.antt =====
-- crates/barbacane-wasm/src/circuit_breaker.rs: what holds of a breaker between two calls.
use barbacane.Common.{ℕ, ◌<◌, ◌^◌, ◌≡◌, ◌≢◌, refl, List, [], ◌∷◌, arith}
use barbacane.CircuitBreaker.{
  CircuitBreaker, CircuitBreakerConfig, CircuitState, closed, open_state, half_open, new,
  evaluate_state, get_state, succeed_in, start_window, count_failure, fail_in, record_success,
  record_failure, Call, asks, succeeds, fails, step, run, now_millis,
}

-- The thresholds are positive `u32` values.
pub record IsSound (c : CircuitBreakerConfig) : Type 0 where
  pub failures_pos : 0 < c.failure_threshold
  pub failures_u32 : c.failure_threshold < 2 ^ 32
  pub successes_pos : 0 < c.success_threshold
  pub successes_u32 : c.success_threshold < 2 ^ 32

pub record Inv (cb : CircuitBreaker) : Type 0 where
  pub sound : IsSound cb.config
  pub below : cb.state ≡ closed → cb.failure_count < cb.config.failure_threshold
  pub started : cb.state ≡ closed → cb.window_start ≡ 0 → cb.failure_count ≡ 0
  pub opened : cb.state ≡ open_state → 0 < cb.opened_at
  pub halfway : cb.state ≡ half_open → cb.half_open_successes < cb.config.success_threshold

new-Inv : (c : CircuitBreakerConfig) → IsSound c → Inv (new c)
unfolding new
new-Inv c h = ground arith

pub evaluate_state-Inv : (cb : CircuitBreaker) (t : ℕ) → Inv cb → Inv (evaluate_state cb t)
unfolding evaluate_state
evaluate_state-Inv cb t v = ground arith

succeed_in-Inv :
    (s : CircuitState) (cb : CircuitBreaker) → cb.state ≡ s → Inv cb → Inv (succeed_in s cb)
unfolding succeed_in
succeed_in-Inv closed cb e v = ground arith
succeed_in-Inv half_open cb e v = ground arith
succeed_in-Inv open_state cb e v = v

start_window-Inv : (cb : CircuitBreaker) (now : ℕ) → 0 < now → Inv cb → Inv (start_window cb now)
unfolding start_window
start_window-Inv cb now pos v = ground arith

count_failure-Inv :
    (cb : CircuitBreaker) (now : ℕ)
    → 0 < now
    → cb.state ≡ closed
    → cb.window_start ≢ 0
    → Inv cb
    → Inv (count_failure cb now)
unfolding count_failure
count_failure-Inv cb now pos e w v = ground arith

fail_in-Inv :
    (s : CircuitState) (cb : CircuitBreaker) (now : ℕ)
    → 0 < now
    → cb.state ≡ s
    → Inv cb
    → Inv (fail_in s cb now)
unfolding fail_in
fail_in-Inv closed cb now pos e v =
    ground (arith, start_window-Inv cb now pos v, count_failure-Inv cb now pos e)
fail_in-Inv half_open cb now pos e v = ground arith
fail_in-Inv open_state cb now pos e v = v

now_millis_pos : (t : ℕ) → 0 < now_millis t
unfolding now_millis
now_millis_pos t = omega arith

-- Every call keeps the invariant.
pub step-Inv : (cb : CircuitBreaker) (c : Call) → Inv cb → Inv (step cb c)
unfolding step get_state record_success record_failure
step-Inv cb (asks t) v = evaluate_state-Inv cb t v
step-Inv cb (succeeds t) v = succeed_in-Inv _ _ refl (evaluate_state-Inv cb t v)
step-Inv cb (fails t u) v =
    fail_in-Inv _ _ (now_millis u) (now_millis_pos u) refl (evaluate_state-Inv cb t v)

run-Inv : (cb : CircuitBreaker) (cs : List Call) → Inv cb → Inv (run cb cs)
unfolding run
run-Inv cb [] v = v
run-Inv cb (c ∷ cs) v = run-Inv (step cb c) cs (step-Inv cb c v)

-- After any history of a new breaker whose thresholds are positive `u32` values: while it is
-- closed the count of failures is below the threshold and an unstarted window counts none, an open
-- one has a positive opening time, and a half-open one still lacks a success to close.
pub run-new-Inv : (c : CircuitBreakerConfig) (cs : List Call) → IsSound c → Inv (run (new c) cs)
run-new-Inv c cs h = run-Inv (new c) cs (new-Inv c h)
