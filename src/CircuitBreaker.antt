-- ===== src/CircuitBreaker.antt =====
-- crates/barbacane-wasm/src/circuit_breaker.rs: the circuit breaker of an upstream. Every method runs
-- under the state lock, so a method is one step. The clock is an argument: the milliseconds since
-- `epoch`, one for each reading.
pub mod Laws
mod Counting
mod Diagram
mod Runs
use barbacane.Common.{
  ℕ, ◌+◌, ◌%◌, ◌^◌, max, Bool, ◌||◌, ltb, leb, ◌==◌, if◌then◌else◌, List, [], ◌∷◌,
}

pub data CircuitState : Type 0 where
  closed open_state half_open : CircuitState

-- Durations are in milliseconds.
pub record CircuitBreakerConfig : Type 0 where
  pub failure_threshold : ℕ
  pub failure_window : ℕ
  pub reset_timeout : ℕ
  pub success_threshold : ℕ

-- `CircuitBreakerConfig::default()`
abbrev pub default_config : CircuitBreakerConfig
default_config = record {
  failure_threshold = 5;
  failure_window = 60000;
  reset_timeout = 30000;
  success_threshold = 1;
}

pub record CircuitBreaker : Type 0 where
  pub config : CircuitBreakerConfig
  pub failure_count : ℕ
  pub window_start : ℕ
  pub opened_at : ℕ
  pub half_open_successes : ℕ
  pub state : CircuitState

-- `u32` and `u64` arithmetic wraps.
abbrev pub u32 : ℕ → ℕ
u32 n = n % 2 ^ 32

abbrev pub u64 : ℕ → ℕ
u64 n = n % 2 ^ 64

pub new : CircuitBreakerConfig → CircuitBreaker
new config = record {
  config = config;
  failure_count = 0;
  window_start = 0;
  opened_at = 0;
  half_open_successes = 0;
  state = closed;
}

-- At least 1: a window that starts at 0 has not started.
pub now_millis : ℕ → ℕ
now_millis elapsed = max (u64 elapsed) 1

half_open_if_due : CircuitBreaker → ℕ → CircuitBreaker
half_open_if_due cb now =
    if ltb (u64 (cb.opened_at + u64 cb.config.reset_timeout)) now
    then record cb { state = half_open; half_open_successes = 0 }
    else cb

evaluate_in : CircuitState → CircuitBreaker → ℕ → CircuitBreaker
unfolding half_open_if_due now_millis
evaluate_in open_state cb elapsed = half_open_if_due cb (now_millis elapsed)
evaluate_in closed cb elapsed = cb
evaluate_in half_open cb elapsed = cb

pub evaluate_state : CircuitBreaker → ℕ → CircuitBreaker
unfolding evaluate_in
evaluate_state cb elapsed = evaluate_in cb.state cb elapsed

-- The method `state`: the breaker after the evaluation holds the state that is returned.
pub get_state : CircuitBreaker → ℕ → CircuitBreaker × CircuitState
unfolding evaluate_state
get_state cb elapsed = let cb' = evaluate_state cb elapsed in (cb', cb'.state)

succeed_in : CircuitState → CircuitBreaker → CircuitBreaker
succeed_in closed cb = record cb { failure_count = 0; window_start = 0 }
succeed_in half_open cb =
    let successes = u32 (cb.half_open_successes + 1) in
    if leb cb.config.success_threshold successes
    then record cb { state = closed; failure_count = 0; window_start = 0; half_open_successes = 0 }
    else record cb { half_open_successes = successes }
succeed_in open_state cb = cb

pub record_success : CircuitBreaker → ℕ → CircuitBreaker
unfolding evaluate_state succeed_in
record_success cb elapsed = let cb' = evaluate_state cb elapsed in succeed_in cb'.state cb'

open_at : CircuitBreaker → ℕ → CircuitBreaker
open_at cb now = record cb { state = open_state; opened_at = now }

-- The first failure of a new window.
start_window : CircuitBreaker → ℕ → CircuitBreaker
unfolding open_at
start_window cb now =
    let cb' = record cb { window_start = now; failure_count = 1 } in
    if cb.config.failure_threshold == 1 then open_at cb' now else cb'

-- A further failure of the window.
count_failure : CircuitBreaker → ℕ → CircuitBreaker
unfolding open_at
count_failure cb now =
    let count = u32 (cb.failure_count + 1) in
    let cb' = record cb { failure_count = count } in
    if leb cb.config.failure_threshold count then open_at cb' now else cb'

fail_in : CircuitState → CircuitBreaker → ℕ → CircuitBreaker
unfolding start_window count_failure open_at
fail_in closed cb now =
    if cb.window_start == 0 || ltb (u64 (cb.window_start + u64 cb.config.failure_window)) now
    then start_window cb now
    else count_failure cb now
fail_in half_open cb now = record (open_at cb now) { half_open_successes = 0 }
fail_in open_state cb now = cb

-- The clock is read by `evaluate_state`, and once more after it.
pub record_failure : CircuitBreaker → ℕ → ℕ → CircuitBreaker
unfolding evaluate_state fail_in now_millis
record_failure cb elapsed later =
    let cb' = evaluate_state cb elapsed in fail_in cb'.state cb' (now_millis later)

-- The calls that a client makes.
pub data Call : Type 0 where
  asks : ℕ → Call
  succeeds : ℕ → Call
  fails : ℕ → ℕ → Call

pub step : CircuitBreaker → Call → CircuitBreaker
unfolding get_state record_success record_failure
step cb (asks t) = (get_state cb t).0
step cb (succeeds t) = record_success cb t
step cb (fails t u) = record_failure cb t u

pub run : CircuitBreaker → List Call → CircuitBreaker
unfolding step
run cb [] = cb
run cb (c ∷ cs) = run (step cb c) cs
