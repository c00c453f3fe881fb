-- ===== src/RateLimiter.antt =====
-- crates/barbacane-wasm/src/rate_limiter.rs: the sliding-window rate limiter. A `check` runs without
-- interference of other threads here; what they can change of it, whether the two `try_write`
-- calls get their locks, is part of the reading that each call is given.
mod Windows
mod History
mod Bounds
mod Forgetting
mod Isolation
mod Runs
use barbacane.Common.{
  ℕ, String, ◌+◌, ◌-◌, ◌%◌, ◌^◌, min, max, Bool, true, false, not, ◌&&◌, ltb, leb, if◌then◌else◌,
  List, [], ◌∷◌, ◌++◌, Option, none, some, length, any, retain, unwrap_or, Dict, lookup, insert,
  contains_key, from_secs, as_secs, duration_since, checked_add, saturating_add,
}

abbrev pub max_window_secs : ℕ
max_window_secs = 31622400

abbrev pub max_quota : ℕ
max_quota = 1000000

abbrev pub max_partitions : ℕ
max_partitions = 100000

pub record RateLimitResult : Type 0 where
  pub allowed : Bool
  pub remaining : ℕ
  pub reset : ℕ
  pub limit : ℕ
  pub retry_after : Option ℕ

pub record SlidingWindow : Type 0 where
  pub timestamps : List ℕ
  pub window : ℕ

-- `SlidingWindow::new`
abbrev pub new_window : ℕ → SlidingWindow
new_window window = record { timestamps = []; window = window }

abbrev pub is_live : ℕ → ℕ → ℕ → Bool
is_live window now t = ltb (duration_since now t) window

abbrev pub first_or : List ℕ → ℕ → ℕ
first_or [] now = now
first_or (t ∷ ts) now = t

-- `reset_instant`, from the live timestamps.
abbrev pub reset_instant : List ℕ → ℕ → ℕ → ℕ
reset_instant live window now = unwrap_or (checked_add (first_or live now) window) now

-- `unix` is the wall clock in seconds.
abbrev pub reset_time : List ℕ → ℕ → ℕ → ℕ → ℕ
reset_time live window now unix =
    saturating_add unix (as_secs (duration_since (reset_instant live window now) now))

abbrev pub allow : ℕ → ℕ → ℕ → RateLimitResult
allow quota count reset = record {
  allowed = true;
  remaining = quota - count - 1;
  reset = reset;
  limit = quota;
  retry_after = none;
}

abbrev pub block : ℕ → ℕ → ℕ → RateLimitResult
block quota retry_after reset = record {
  allowed = false;
  remaining = 0;
  reset = reset;
  limit = quota;
  retry_after = some (max retry_after 1);
}

unfoldable pub check_and_record : SlidingWindow → ℕ → ℕ → ℕ → SlidingWindow × RateLimitResult
check_and_record w quota now unix =
    let live = retain (is_live w.window now) w.timestamps in
    let count = length live % 2 ^ 32 in
    let reset = reset_time live w.window now unix in
    if ltb count quota
    then (record w { timestamps = live ++ now ∷ [] }, allow quota count reset)
    else (
      record w { timestamps = live },
      block quota (as_secs (duration_since (reset_instant live w.window now) now)) reset,
    )

pub record RateLimiter : Type 0 where
  pub windows : Dict SlidingWindow
  pub cleanup_threshold : ℕ
  pub last_cleanup : ℕ

-- `RateLimiter::new`, at an instant.
abbrev pub new : ℕ → RateLimiter
new now = record { windows = []; cleanup_threshold = from_secs 300; last_cleanup = now }

-- What one call reads of the clocks, in order, and whether it gets the locks that it tries.
pub record Reading : Type 0 where
  pub cleanup_now : ℕ
  pub last_lock : Bool
  pub windows_lock : Bool
  pub evict_now : ℕ
  pub evict_unix : ℕ
  pub now : ℕ
  pub unix : ℕ

-- The predicate of both `retain` calls on the windows.
abbrev pub is_recent : ℕ → ℕ → String × SlidingWindow → Bool
is_recent threshold now (key, w) = any (λ t. ltb (duration_since now t) threshold) w.timestamps

clean : RateLimiter → Reading → RateLimiter
clean rl rd = record rl {
  windows =
      if rd.windows_lock
      then retain (is_recent rl.cleanup_threshold rd.cleanup_now) rl.windows
      else rl.windows;
  last_cleanup = rd.cleanup_now;
}

pub maybe_cleanup : RateLimiter → Reading → RateLimiter
unfolding clean
maybe_cleanup rl rd =
    if ltb (duration_since rd.cleanup_now rl.last_cleanup) rl.cleanup_threshold
    then rl
    else if rd.last_lock
    then clean rl rd
    else rl

-- The entry of the key, new if there is none, with its window set, checks the request.
pub check_window : RateLimiter → String → ℕ → ℕ → Reading → RateLimiter × RateLimitResult
unfolding check_and_record
check_window rl key quota duration rd =
    let entry = unwrap_or (lookup key rl.windows) (new_window duration) in
    let (w, result) = check_and_record (record entry { window = duration }) quota rd.now rd.unix in
    (record rl { windows = insert key w rl.windows }, result)

-- The table is still full of recent partitions: a new key is refused.
abbrev saturated : ℕ → ℕ → Reading → RateLimitResult
saturated quota window_secs rd = record {
  allowed = false;
  remaining = 0;
  reset = saturating_add rd.evict_unix window_secs;
  limit = quota;
  retry_after = some (max window_secs 1);
}

evict_and_check : RateLimiter → String → ℕ → ℕ → Reading → RateLimiter × RateLimitResult
unfolding check_window
evict_and_check rl key quota window_secs rd =
    let rl' = record rl {
      windows = retain (is_recent rl.cleanup_threshold rd.evict_now) rl.windows;
    } in
    if leb max_partitions (length rl'.windows)
    then (rl', saturated quota window_secs rd)
    else check_window rl' key quota (from_secs window_secs) rd

check_clamped : RateLimiter → String → ℕ → ℕ → Reading → RateLimiter × RateLimitResult
unfolding check_window evict_and_check
check_clamped rl key quota window_secs rd =
    if leb max_partitions (length rl.windows) && not (contains_key key rl.windows)
    then evict_and_check rl key quota window_secs rd
    else check_window rl key quota (from_secs window_secs) rd

pub check : RateLimiter → String → ℕ → ℕ → Reading → RateLimiter × RateLimitResult
unfolding maybe_cleanup check_clamped
check rl key quota window_secs rd =
    check_clamped (maybe_cleanup rl rd) key (min quota max_quota) (min window_secs max_window_secs)
      rd

-- `stats().active_keys`
pub active_keys : RateLimiter → ℕ
active_keys rl = length rl.windows
