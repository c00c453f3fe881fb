-- ===== src/CircuitBreaker/Counting.antt =====
-- crates/barbacane-wasm/src/circuit_breaker.rs: when the breaker opens, and for how long.
use barbacane.Common.{
  ℕ, suc, ◌+◌, ◌≤◌, ◌<◌, ◌^◌, ◌≡◌, refl, List, [], ◌∷◌, All, length, arith, if◌then◌else◌, ltb,
  Bool-cases, inl, inr, map,
}
use barbacane.CircuitBreaker.{
  CircuitBreaker, CircuitBreakerConfig, closed, open_state, new, evaluate_state, get_state,
  succeed_in, start_window, count_failure, fail_in, half_open_if_due, evaluate_in, record_success,
  record_failure, Call, asks, succeeds, fails, step, run, now_millis,
}
use barbacane.CircuitBreaker.Laws.{IsSound}

-- The last instant at which an open breaker still fails fast, where the sum does not wrap.
abbrev pub deadline : CircuitBreaker → ℕ
deadline cb = cb.opened_at + cb.config.reset_timeout

-- The clock reads no later than `t` in a call.
abbrev pub IsBy : ℕ → Call → Type 0
IsBy t (asks u) = u ≤ t
IsBy t (succeeds u) = u ≤ t
IsBy t (fails u v) = u ≤ t

step_open :
    (cb : CircuitBreaker) (c : Call)
    → cb.state ≡ open_state
    → deadline cb < 2 ^ 64
    → 0 < deadline cb
    → IsBy (deadline cb) c
    → step cb c ≡ cb
unfolding step get_state record_success record_failure evaluate_state evaluate_in half_open_if_due
    now_millis succeed_in fail_in
step_open cb (asks t) e w p h = ground arith
step_open cb (succeeds t) e w p h = ground arith
step_open cb (fails t u) e w p h = ground arith

-- An open breaker is left as it is by every call whose clock reads no later than the end of its
-- reset timeout, where that instant is positive and does not overflow.
pub run_open :
    (cb : CircuitBreaker) (cs : List Call)
    → cb.state ≡ open_state
    → deadline cb < 2 ^ 64
    → 0 < deadline cb
    → All (IsBy (deadline cb)) cs
    → run cb cs ≡ cb
unfolding run
run_open cb [] e w p h = refl
run_open cb (c ∷ cs) e w p h = rw (step_open cb c e w p h.0) (run_open cb cs e w p h.1)

-- A failure whose clock reads `p.0` in the evaluation and `p.1` in the count.
abbrev pub failure : ℕ × ℕ → Call
failure (t, u) = fails t u

abbrev window_end : CircuitBreaker → ℕ
window_end cb = cb.window_start + cb.config.failure_window

record IsCounting (cb : CircuitBreaker) : Type 0 where
  sound : IsSound cb.config
  closed_now : cb.state ≡ closed
  started : 0 < cb.window_start
  fits : window_end cb < 2 ^ 64

abbrev counted : CircuitBreaker → CircuitBreaker
counted cb = record cb { failure_count = cb.failure_count + 1 }

step_counts :
    (cb : CircuitBreaker) (t u : ℕ)
    → IsCounting cb
    → cb.failure_count + 1 < cb.config.failure_threshold
    → u ≤ window_end cb
    → step cb (fails t u) ≡ counted cb
unfolding step record_failure evaluate_state evaluate_in now_millis fail_in count_failure
step_counts cb t u v less h = ground arith

step_opens :
    (cb : CircuitBreaker) (t u : ℕ)
    → IsCounting cb
    → cb.failure_count + 1 ≡ cb.config.failure_threshold
    → u ≤ window_end cb
    → (step cb (fails t u)).state ≡ open_state
unfolding step record_failure evaluate_state evaluate_in now_millis fail_in count_failure
step_opens cb t u v full h = ground arith

module _ (c : CircuitBreakerConfig) (limit : ℕ) where
  -- The facts that every failure but the last keeps.
  record InWindow (cb : CircuitBreaker) : Type 0 where
    counting : IsCounting cb
    same_config : cb.config ≡ c
    limit_eq : window_end cb ≡ limit

  counted-InWindow : (cb : CircuitBreaker) → InWindow cb → InWindow (counted cb)
  counted-InWindow cb v = record {
    counting = record {
      sound = v.counting.sound;
      closed_now = v.counting.closed_now;
      started = v.counting.started;
      fits = v.counting.fits;
    };
    same_config = v.same_config;
    limit_eq = v.limit_eq;
  }

  run_stays_closed :
      (cb : CircuitBreaker) (ps : List (ℕ × ℕ))
      → InWindow cb
      → cb.failure_count + length ps < cb.config.failure_threshold
      → All (λ p. p.1 ≤ limit) ps
      → (run cb (map failure ps)).state ≡ closed
  unfolding run
  run_stays_closed cb [] v most h = v.counting.closed_now
  run_stays_closed cb ((t, u) ∷ ps) v most h =
      rw (run, step_counts cb t u v.counting (omega arith) (rw v.limit_eq h.0))
        (run_stays_closed (counted cb) ps (counted-InWindow cb v) (omega arith) h.1)

  run_opens :
      (cb : CircuitBreaker) (p : ℕ × ℕ) (ps : List (ℕ × ℕ))
      → InWindow cb
      → cb.failure_count + suc (length ps) ≡ cb.config.failure_threshold
      → All (λ p. p.1 ≤ limit) (p ∷ ps)
      → (run cb (map failure (p ∷ ps))).state ≡ open_state
  unfolding run
  run_opens cb (t, u) [] v full h = step_opens cb t u v.counting (omega arith) (rw v.limit_eq h.0)
  run_opens cb (t, u) (q ∷ ps) v full h =
      rw (run, step_counts cb t u v.counting (omega arith) (rw v.limit_eq h.0))
        (run_opens (counted cb) q ps (counted-InWindow cb v) (omega arith) h.1)

abbrev first_window : CircuitBreakerConfig → ℕ → CircuitBreaker
first_window c u = record {
  config = c;
  failure_count = 1;
  window_start = u;
  opened_at = 0;
  half_open_successes = 0;
  state = closed;
}

first_failure :
    (c : CircuitBreakerConfig) (t u : ℕ)
    → 0 < u
    → u < 2 ^ 64
    → 1 < c.failure_threshold
    → step (new c) (fails t u) ≡ first_window c u
unfolding new step record_failure evaluate_state evaluate_in now_millis fail_in start_window
first_failure c t u pos fits more = ground arith

first_failure_opens :
    (c : CircuitBreakerConfig) (t u : ℕ)
    → 1 ≡ c.failure_threshold
    → (step (new c) (fails t u)).state ≡ open_state
unfolding new step record_failure evaluate_state evaluate_in now_millis fail_in start_window
first_failure_opens c t u one = ground arith

first_window-InWindow :
    (c : CircuitBreakerConfig) (u : ℕ)
    → IsSound c
    → 0 < u
    → u + c.failure_window < 2 ^ 64
    → InWindow c (u + c.failure_window) (first_window c u)
first_window-InWindow c u s pos fits = record {
  counting = record { sound = s; closed_now = refl; started = pos; fits = fits };
  same_config = refl;
  limit_eq = refl;
}

-- A new breaker with positive `u32` thresholds opens on the failure that makes the threshold full,
-- and no earlier, as long as the failures fall in the window that the first one starts, and that
-- window does not overflow.
pub opens_at_threshold :
    (c : CircuitBreakerConfig) (t u : ℕ) (ps : List (ℕ × ℕ))
    → IsSound c
    → 0 < u
    → u + c.failure_window < 2 ^ 64
    → All (λ p. p.1 ≤ u + c.failure_window) ps
    → suc (length ps) ≤ c.failure_threshold
    → (run (new c) (map failure ((t, u) ∷ ps))).state
      ≡ (if ltb (suc (length ps)) c.failure_threshold then closed else open_state)
unfolding run
opens_at_threshold c t u [] s pos fits h le = elim (Bool-cases (ltb 1 c.failure_threshold)) [
  | inl less ↦ rw (less, first_failure c t u pos (omega arith) (ground arith))
  | inr full ↦ rw full (first_failure_opens c t u (ground arith))
]
opens_at_threshold c t u (p ∷ ps) s pos fits h le =
    let v = first_window-InWindow c u s pos fits in
    let limit = u + c.failure_window in
    elim (Bool-cases (ltb (suc (length (p ∷ ps))) c.failure_threshold)) [
      | inl less ↦
          rw (run, less, first_failure c t u pos (omega arith) (ground arith))
            (run_stays_closed c limit (first_window c u) (p ∷ ps) v (ground arith) h)
      | inr full ↦
          rw (run, full, first_failure c t u pos (omega arith) (ground arith))
            (run_opens c limit (first_window c u) p ps v (ground arith) h)
    ]
