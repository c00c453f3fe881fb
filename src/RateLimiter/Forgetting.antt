-- ===== src/RateLimiter/Forgetting.antt =====
-- crates/barbacane-wasm/src/rate_limiter.rs: what the periodic cleanup forgets.
use barbacane.Common.{
  ℕ, String, ◌-◌, ◌≤◌, ◌<◌, ◌≡◌, min, true, false, none, some, length, length-retain-le, arith,
  lookup, lookup-retain, HasUniqueKeys, duration_since, from_secs,
}
use barbacane.RateLimiter.{
  RateLimiter, SlidingWindow, Reading, max_quota, max_partitions, max_window_secs, is_recent, clean,
  maybe_cleanup, check_and_record, check_window, check_clamped, check,
}

-- The cleanup runs in the call: it is due, and the call gets both locks.
pub record Cleans (rl : RateLimiter) (rd : Reading) : Type 0 where
  pub due : rl.cleanup_threshold ≤ duration_since rd.cleanup_now rl.last_cleanup
  pub last_free : rd.last_lock ≡ true
  pub windows_free : rd.windows_lock ≡ true

lookup-maybe_cleanup :
    (rl : RateLimiter) (rd : Reading) (key : String) (w : SlidingWindow)
    → Cleans rl rd
    → HasUniqueKeys rl.windows
    → lookup key rl.windows ≡ some w
    → is_recent rl.cleanup_threshold rd.cleanup_now (key, w) ≡ false
    → lookup key (maybe_cleanup rl rd).windows ≡ none
unfolding maybe_cleanup clean
lookup-maybe_cleanup rl rd key w c u e stale =
    ground (arith, lookup-retain (is_recent rl.cleanup_threshold rd.cleanup_now) key rl.windows u)

length-maybe_cleanup :
    (rl : RateLimiter) (rd : Reading) → length (maybe_cleanup rl rd).windows ≤ length rl.windows
unfolding maybe_cleanup clean
length-maybe_cleanup rl rd =
    ground (arith, length-retain-le (is_recent rl.cleanup_threshold rd.cleanup_now) rl.windows)

check_window_fresh :
    (rl : RateLimiter) (key : String) (quota duration : ℕ) (rd : Reading)
    → lookup key rl.windows ≡ none
    → 0 < quota
    → let r = (check_window rl key quota duration rd).1 in
      (r.allowed ≡ true) × (r.remaining ≡ quota - 1)
unfolding check_window check_and_record
check_window_fresh rl key quota duration rd e pos = ground arith

-- In a table that is not full and holds no key twice, a key whose requests are all older than the
-- cleanup threshold is forgotten when the cleanup is due and gets its locks, however long the
-- key's own window is: a request with a positive quota is then allowed, and all but one of the
-- clamped quota remains.
pub check_forgets :
    (rl : RateLimiter) (key : String) (quota window_secs : ℕ) (rd : Reading) (w : SlidingWindow)
    → Cleans rl rd
    → HasUniqueKeys rl.windows
    → length rl.windows < max_partitions
    → lookup key rl.windows ≡ some w
    → is_recent rl.cleanup_threshold rd.cleanup_now (key, w) ≡ false
    → 0 < quota
    → let r = (check rl key quota window_secs rd).1 in
      (r.allowed ≡ true) × (r.remaining ≡ min quota max_quota - 1)
unfolding check check_clamped
check_forgets rl key quota window_secs rd w c u few e stale pos =
    let gone = lookup-maybe_cleanup rl rd key w c u e stale in
    ground (
      arith,
      length-maybe_cleanup rl rd,
      check_window_fresh (maybe_cleanup rl rd) key (min quota max_quota)
          (from_secs (min window_secs max_window_secs)) rd gone,
    )
