-- ===== src/RateLimiter/Isolation.antt =====
-- crates/barbacane-wasm/src/rate_limiter.rs: a check of one key and the windows of the others.
use barbacane.Common.{
  ℕ, String, ◌≡◌, ◌≢◌, ◌∙◌, min, true, some, retain, arith, lookup, lookup-retain, lookup-insert,
  HasUniqueKeys, retain-HasUniqueKeys, str_eq_iff, from_secs,
}
use barbacane.RateLimiter.{
  RateLimiter, SlidingWindow, Reading, max_quota, max_window_secs, is_recent, clean, maybe_cleanup,
  check_window, check_clamped, check, evict_and_check,
}

module _ (j : String) (w : SlidingWindow) where
  -- The map holds the window under the key, and every key once.
  record Holds (rl : RateLimiter) : Type 0 where
    unique : HasUniqueKeys rl.windows
    found : lookup j rl.windows ≡ some w

  retain-Holds :
      (rl : RateLimiter) (now : ℕ)
      → is_recent rl.cleanup_threshold now (j, w) ≡ true
      → Holds rl
      → Holds (record rl { windows = retain (is_recent rl.cleanup_threshold now) rl.windows })
  retain-Holds rl now r v = record {
    unique = retain-HasUniqueKeys (is_recent rl.cleanup_threshold now) rl.windows v.unique;
    found =
        lookup-retain (is_recent rl.cleanup_threshold now) j rl.windows v.unique ∙ rw (v.found, r);
  }

  maybe_cleanup-Holds :
      (rl : RateLimiter) (rd : Reading)
      → is_recent rl.cleanup_threshold rd.cleanup_now (j, w) ≡ true
      → Holds rl
      → Holds (maybe_cleanup rl rd)
  unfolding maybe_cleanup clean
  maybe_cleanup-Holds rl rd r v = ground (
    arith,
    lookup-retain (is_recent rl.cleanup_threshold rd.cleanup_now) j rl.windows v.unique,
    retain-HasUniqueKeys (is_recent rl.cleanup_threshold rd.cleanup_now) rl.windows v.unique,
  )

  cleanup_threshold-maybe_cleanup :
      (rl : RateLimiter) (rd : Reading)
      → (maybe_cleanup rl rd).cleanup_threshold ≡ rl.cleanup_threshold
  unfolding maybe_cleanup clean
  cleanup_threshold-maybe_cleanup rl rd = ground arith

  check_window-Holds :
      (rl : RateLimiter) (key : String) (quota duration : ℕ) (rd : Reading)
      → key ≢ j
      → Holds rl
      → lookup j (check_window rl key quota duration rd).0.windows ≡ some w
  unfolding check_window
  check_window-Holds rl key quota duration rd ne v =
      lookup-insert key j _ rl.windows ∙ ground (arith, str_eq_iff key j, v.found)

  check_clamped-Holds :
      (rl : RateLimiter) (key : String) (quota window_secs : ℕ) (rd : Reading)
      → key ≢ j
      → is_recent rl.cleanup_threshold rd.evict_now (j, w) ≡ true
      → Holds rl
      → lookup j (check_clamped rl key quota window_secs rd).0.windows ≡ some w
  unfolding check_clamped evict_and_check
  check_clamped-Holds rl key quota window_secs rd ne r v =
      let rl' = record rl {
        windows = retain (is_recent rl.cleanup_threshold rd.evict_now) rl.windows;
      } in
      let v' = retain-Holds rl rd.evict_now r v in
      ground (
        arith,
        v'.found,
        check_window-Holds rl' key quota (from_secs window_secs) rd ne v',
        check_window-Holds rl key quota (from_secs window_secs) rd ne v,
      )

  -- In a table that holds no key twice, a check of another key leaves a window as it is, if one of
  -- its requests is recent enough for the two cleanups that the check may make.
  pub check_isolated :
      (rl : RateLimiter) (key : String) (quota window_secs : ℕ) (rd : Reading)
      → key ≢ j
      → is_recent rl.cleanup_threshold rd.cleanup_now (j, w) ≡ true
      → is_recent rl.cleanup_threshold rd.evict_now (j, w) ≡ true
      → HasUniqueKeys rl.windows
      → lookup j rl.windows ≡ some w
      → lookup j (check rl key quota window_secs rd).0.windows ≡ some w
  unfolding check
  check_isolated rl key quota window_secs rd ne r₁ r₂ u e =
      check_clamped-Holds (maybe_cleanup rl rd) key (min quota max_quota)
        (min window_secs max_window_secs) rd ne (rw (cleanup_threshold-maybe_cleanup rl rd) r₂)
        (maybe_cleanup-Holds rl rd r₁ (record { unique = u; found = e }))
