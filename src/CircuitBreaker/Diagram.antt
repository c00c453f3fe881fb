-- ===== src/CircuitBreaker/Diagram.antt =====
-- crates/barbacane-wasm/src/circuit_breaker.rs: how a breaker that has opened recovers.
use barbacane.Common.{
  ℕ, suc, ◌+◌, ◌<◌, ◌^◌, ◌≡◌, refl, List, [], ◌∷◌, ◌++◌, All, length, arith, ◌≤◌, if◌then◌else◌,
  ltb, Bool-cases, inl, inr, map,
}
use barbacane.CircuitBreaker.{
  CircuitBreaker, CircuitState, closed, open_state, half_open, evaluate_state, get_state,
  succeed_in, fail_in, half_open_if_due, evaluate_in, record_success, record_failure, Call,
  succeeds, fails, step, run, now_millis,
}
use barbacane.CircuitBreaker.Counting.{IsBy, run_open, deadline}

abbrev succeeded : CircuitBreaker → CircuitBreaker
succeeded cb = record cb { half_open_successes = cb.half_open_successes + 1 }

abbrev probing : CircuitBreaker → CircuitBreaker
probing cb = record cb { state = half_open; half_open_successes = 0 }

-- A breaker that has closed counts no failure.
pub record IsReset (cb : CircuitBreaker) : Type 0 where
  closed_now : cb.state ≡ closed
  no_failure : cb.failure_count ≡ 0
  no_window : cb.window_start ≡ 0

step_due :
    (cb : CircuitBreaker) (t : ℕ)
    → cb.state ≡ open_state
    → deadline cb < t
    → t < 2 ^ 64
    → step cb (succeeds t) ≡ step (probing cb) (succeeds t)
unfolding step record_success evaluate_state evaluate_in half_open_if_due now_millis
step_due cb t e due fits = ground arith

step_success :
    (cb : CircuitBreaker) (t : ℕ)
    → cb.state ≡ half_open
    → cb.config.success_threshold < 2 ^ 32
    → cb.half_open_successes + 1 < cb.config.success_threshold
    → step cb (succeeds t) ≡ succeeded cb
unfolding step record_success evaluate_state evaluate_in succeed_in
step_success cb t e fits less = ground arith

step_last_success :
    (cb : CircuitBreaker) (t : ℕ)
    → cb.state ≡ half_open
    → cb.config.success_threshold < 2 ^ 32
    → cb.half_open_successes + 1 ≡ cb.config.success_threshold
    → IsReset (step cb (succeeds t))
unfolding step record_success evaluate_state evaluate_in succeed_in
step_last_success cb t e fits full = ground arith

run_probing :
    (cb : CircuitBreaker) (ts : List ℕ)
    → cb.state ≡ half_open
    → cb.config.success_threshold < 2 ^ 32
    → cb.half_open_successes + length ts < cb.config.success_threshold
    → (run cb (map succeeds ts)).state ≡ half_open
unfolding run
run_probing cb [] e fits less = e
run_probing cb (t ∷ ts) e fits less =
    rw (run, step_success cb t e fits (omega arith))
      (run_probing (succeeded cb) ts e fits (omega arith))

run_recovers :
    (cb : CircuitBreaker) (t : ℕ) (ts : List ℕ)
    → cb.state ≡ half_open
    → cb.config.success_threshold < 2 ^ 32
    → cb.half_open_successes + suc (length ts) ≡ cb.config.success_threshold
    → IsReset (run cb (map succeeds (t ∷ ts)))
unfolding run
run_recovers cb t [] e fits full = step_last_success cb t e fits (omega arith)
run_recovers cb t (u ∷ ts) e fits full =
    rw (run, step_success cb t e fits (omega arith))
      (run_recovers (succeeded cb) u ts e fits (omega arith))

run_due :
    (cb : CircuitBreaker) (t : ℕ) (ts : List ℕ)
    → cb.state ≡ open_state
    → deadline cb < t
    → t < 2 ^ 64
    → run cb (map succeeds (t ∷ ts)) ≡ run (probing cb) (map succeeds (t ∷ ts))
unfolding run
run_due cb t ts e due now = rw (run, step_due cb t e due now)

-- An open breaker that is called after its reset timeout, at an instant that does not overflow, is
-- half open until as many calls have succeeded as the success threshold, a `u32`, says, and is
-- then closed.
pub recovers_at_threshold :
    (cb : CircuitBreaker) (t : ℕ) (ts : List ℕ)
    → cb.state ≡ open_state
    → cb.config.success_threshold < 2 ^ 32
    → deadline cb < t
    → t < 2 ^ 64
    → suc (length ts) ≤ cb.config.success_threshold
    → (run cb (map succeeds (t ∷ ts))).state
      ≡ (if ltb (suc (length ts)) cb.config.success_threshold then half_open else closed)
recovers_at_threshold cb t ts e fits due now le =
    elim (Bool-cases (ltb (suc (length ts)) cb.config.success_threshold)) [
      | inl less ↦
          rw (less, run_due cb t ts e due now)
            (run_probing (probing cb) (t ∷ ts) refl fits (ground arith))
      | inr full ↦
          rw (full, run_due cb t ts e due now)
            (run_recovers (probing cb) t ts refl fits (ground arith)).closed_now
    ]

-- When the calls that succeed after the reset timeout of an open breaker, at an instant that does
-- not overflow, make the success threshold full, the breaker counts no failure, and no failure
-- window has started.
pub recovery_forgets :
    (cb : CircuitBreaker) (t : ℕ) (ts : List ℕ)
    → cb.state ≡ open_state
    → cb.config.success_threshold < 2 ^ 32
    → deadline cb < t
    → t < 2 ^ 64
    → suc (length ts) ≡ cb.config.success_threshold
    → IsReset (run cb (map succeeds (t ∷ ts)))
recovery_forgets cb t ts e fits due now full =
    rw (run_due cb t ts e due now) (run_recovers (probing cb) t ts refl fits (omega arith))

step_fails_half_open :
    (cb : CircuitBreaker) (t u : ℕ)
    → cb.state ≡ half_open
    → (step cb (fails t u)).state ≡ open_state
unfolding step record_failure evaluate_state evaluate_in fail_in
step_fails_half_open cb t u e = ground arith

opened_at-fails_half_open :
    (cb : CircuitBreaker) (t u : ℕ)
    → cb.state ≡ half_open
    → 0 < u
    → u < 2 ^ 64
    → deadline (step cb (fails t u)) ≡ u + cb.config.reset_timeout
unfolding step record_failure evaluate_state evaluate_in fail_in now_millis
opened_at-fails_half_open cb t u e pos fits = ground arith

-- A failure while half open opens the breaker again, for a whole reset timeout from that failure,
-- where that does not overflow: no call within it changes the breaker.
half_open_failure_reopens :
    (cb : CircuitBreaker) (t u : ℕ) (cs : List Call)
    → cb.state ≡ half_open
    → 0 < u
    → u + cb.config.reset_timeout < 2 ^ 64
    → All (IsBy (u + cb.config.reset_timeout)) cs
    → let opened = step cb (fails t u) in (opened.state ≡ open_state) × (run opened cs ≡ opened)
half_open_failure_reopens cb t u cs e pos fits h =
    let d = opened_at-fails_half_open cb t u e pos (omega arith) in
    let s = step_fails_half_open cb t u e in
    (s, run_open (step cb (fails t u)) cs s (omega (arith, d)) (omega (arith, d)) (rw d h))

-- The states that clients who ask one after the other are told.
pub answers : CircuitBreaker → List ℕ → List CircuitState
answers cb [] = []
answers cb (t ∷ ts) = let (cb', told) = get_state cb t in told ∷ answers cb' ts

abbrev pub all_told : CircuitState → List ℕ → List CircuitState
all_told told ts = map (λ t. told) ts

evaluate_state_open :
    (cb : CircuitBreaker) (t : ℕ)
    → cb.state ≡ open_state
    → deadline cb < 2 ^ 64
    → 0 < deadline cb
    → t ≤ deadline cb
    → evaluate_state cb t ≡ cb
unfolding evaluate_state evaluate_in half_open_if_due now_millis
evaluate_state_open cb t e w p h = ground arith

evaluate_state_due :
    (cb : CircuitBreaker) (t : ℕ)
    → cb.state ≡ open_state
    → deadline cb < t
    → t < 2 ^ 64
    → evaluate_state cb t ≡ probing cb
unfolding evaluate_state evaluate_in half_open_if_due now_millis
evaluate_state_due cb t e due fits = ground arith

evaluate_state_half_open :
    (cb : CircuitBreaker) (t : ℕ) → cb.state ≡ half_open → evaluate_state cb t ≡ cb
unfolding evaluate_state evaluate_in
evaluate_state_half_open cb t e = ground arith

answers_half_open :
    (cb : CircuitBreaker) (ts : List ℕ)
    → cb.state ≡ half_open
    → answers cb ts ≡ all_told half_open ts
unfolding answers get_state
answers_half_open cb [] e = refl
answers_half_open cb (t ∷ ts) e =
    rw (evaluate_state_half_open cb t e, answers_half_open cb ts e, e) refl

answers_due :
    (cb : CircuitBreaker) (ts : List ℕ)
    → cb.state ≡ open_state
    → All (λ t. (deadline cb < t) × (t < 2 ^ 64)) ts
    → answers cb ts ≡ all_told half_open ts
unfolding answers get_state
answers_due cb [] e h = refl
answers_due cb (t ∷ ts) e h =
    rw (evaluate_state_due cb t e h.0.0 h.0.1, answers_half_open (probing cb) ts refl) refl

-- The clients who ask an open breaker up to the end of its reset timeout are told that it is open, and
-- each of those who ask later, however many, that it is half open: while no result is recorded,
-- nothing limits the trial to one request. The instants are positive and do not overflow.
pub half_open_unlimited :
    (cb : CircuitBreaker) (early late : List ℕ)
    → cb.state ≡ open_state
    → 0 < deadline cb
    → deadline cb < 2 ^ 64
    → All (λ t. t ≤ deadline cb) early
    → All (λ t. (deadline cb < t) × (t < 2 ^ 64)) late
    → answers cb (early ++ late) ≡ all_told open_state early ++ all_told half_open late
unfolding answers get_state
half_open_unlimited cb [] late e pos fits h g = answers_due cb late e g
half_open_unlimited cb (t ∷ early) late e pos fits h g =
    rw
      (
        evaluate_state_open cb t e fits pos h.0,
        half_open_unlimited cb early late e pos fits h.1 g,
        e,
      )
      refl
