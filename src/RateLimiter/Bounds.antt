-- ===== src/RateLimiter/Bounds.antt =====
-- crates/barbacane-wasm/src/rate_limiter.rs: the memory that the limiter can be made to hold.
use barbacane.Common.{
  ℕ, String, ◌⊎◌, inl, inr, Bool-cases, leb, not, ◌&&◌, length-append, ◌≤◌, ◌<◌, ◌≡◌, min, true, [],
  ◌∷◌, length, length-retain-le, retain, arith, lookup, contains_key, HasUniqueKeys, AllValues,
  insert-AllValues, retain-AllValues, lookup-AllValues, insert-HasUniqueKeys, retain-HasUniqueKeys,
  length-insert, unwrap_or, from_secs,
}
use barbacane.RateLimiter.{
  RateLimiter, SlidingWindow, Reading, is_live, max_quota, max_partitions, new, new_window,
  is_recent, clean, maybe_cleanup, check_and_record, check_window, evict_and_check, check_clamped,
  check, max_window_secs,
}
use barbacane.RateLimiter.Windows.{live}

-- A window holds no more timestamps than the largest quota.
abbrev IsSmall : SlidingWindow → Type 0
IsSmall w = length w.timestamps ≤ max_quota

pub record Bounded (rl : RateLimiter) : Type 0 where
  pub unique : HasUniqueKeys rl.windows
  pub few : length rl.windows ≤ max_partitions
  pub small : AllValues IsSmall rl.windows

pub new-Bounded : (now : ℕ) → Bounded (new now)
new-Bounded now = record { unique = tt; few = omega arith; small = tt }

retain-Bounded :
    (rl : RateLimiter) (t now : ℕ) (last : ℕ)
    → Bounded rl
    → Bounded (record rl { windows = retain (is_recent t now) rl.windows; last_cleanup = last })
retain-Bounded rl t now last v = record {
  unique = retain-HasUniqueKeys (is_recent t now) rl.windows v.unique;
  few = omega (arith, length-retain-le (is_recent t now) rl.windows, v.few);
  small = retain-AllValues IsSmall (is_recent t now) rl.windows v.small;
}

maybe_cleanup-Bounded :
    (rl : RateLimiter) (rd : Reading) → Bounded rl → Bounded (maybe_cleanup rl rd)
unfolding maybe_cleanup clean
maybe_cleanup-Bounded rl rd v =
    ground (arith, retain-Bounded rl rl.cleanup_threshold rd.cleanup_now rd.cleanup_now v)

check_and_record-IsSmall :
    (w : SlidingWindow) (quota now unix : ℕ)
    → quota ≤ max_quota
    → IsSmall w
    → IsSmall (check_and_record w quota now unix).0
unfolding check_and_record
check_and_record-IsSmall w quota now unix q h = ground (
  arith,
  length-retain-le (is_live w.window now) w.timestamps,
  length-append (live w now) (now ∷ []),
)

check_window-Bounded :
    (rl : RateLimiter) (key : String) (quota duration : ℕ) (rd : Reading)
    → quota ≤ max_quota
    → Bounded rl
    → length rl.windows < max_partitions ⊎ (contains_key key rl.windows ≡ true)
    → Bounded (check_window rl key quota duration rd).0
unfolding check_window
check_window-Bounded rl key quota duration rd q v room =
    let entry = unwrap_or (lookup key rl.windows) (new_window duration) in
    let w = (check_and_record (record entry { window = duration }) quota rd.now rd.unix).0 in
    let old = lookup-AllValues IsSmall key rl.windows (new_window duration) (omega arith) v.small in
    record {
      unique = insert-HasUniqueKeys key w rl.windows v.unique;
      few = ground (arith, length-insert key w rl.windows, v.few);
      small =
          insert-AllValues IsSmall key w rl.windows
            (check_and_record-IsSmall (record entry { window = duration }) quota rd.now rd.unix q
              old)
            v.small;
    }

evict_and_check-Bounded :
    (rl : RateLimiter) (key : String) (quota window_secs : ℕ) (rd : Reading)
    → quota ≤ max_quota
    → Bounded rl
    → Bounded (evict_and_check rl key quota window_secs rd).0
unfolding evict_and_check
evict_and_check-Bounded rl key quota window_secs rd q v =
    let rl' = record rl {
      windows = retain (is_recent rl.cleanup_threshold rd.evict_now) rl.windows;
    } in
    let v' = retain-Bounded rl rl.cleanup_threshold rd.evict_now rl.last_cleanup v in
    elim (Bool-cases (leb max_partitions (length rl'.windows))) [
      | inl full ↦ rw full v'
      | inr room ↦
          rw room (
            check_window-Bounded rl' key quota (from_secs window_secs) rd q v' (inl (ground arith)))
    ]

check_clamped-Bounded :
    (rl : RateLimiter) (key : String) (quota window_secs : ℕ) (rd : Reading)
    → quota ≤ max_quota
    → Bounded rl
    → Bounded (check_clamped rl key quota window_secs rd).0
unfolding check_clamped
check_clamped-Bounded rl key quota window_secs rd q v =
    elim (Bool-cases
      (leb max_partitions (length rl.windows) && not (contains_key key rl.windows))) [
        | inl full ↦ rw full (evict_and_check-Bounded rl key quota window_secs rd q v)
        | inr room ↦
            rw room
              (check_window-Bounded rl key quota (from_secs window_secs) rd q v (ground arith))
      ]

-- Every check, of any key, quota and window, keeps the limiter bounded: no key is held twice, there
-- are at most `max_partitions` keys, and each holds at most `max_quota` timestamps.
pub check-Bounded :
    (rl : RateLimiter) (key : String) (quota window_secs : ℕ) (rd : Reading)
    → Bounded rl
    → Bounded (check rl key quota window_secs rd).0
unfolding check
check-Bounded rl key quota window_secs rd v =
    check_clamped-Bounded (maybe_cleanup rl rd) key (min quota max_quota)
      (min window_secs max_window_secs) rd (omega arith) (maybe_cleanup-Bounded rl rd v)
