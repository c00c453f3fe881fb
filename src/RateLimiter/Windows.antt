-- ===== src/RateLimiter/Windows.antt =====
-- crates/barbacane-wasm/src/rate_limiter.rs: one sliding window and one request.
use barbacane.Common.{
  ℕ, ◌-◌, ◌<◌, ◌^◌, ◌≡◌, ltb, List, [], ◌∷◌, ◌++◌, length, length-append, if◌then◌else◌,
  length-retain-le, retain, arith,
}
use mathlib.Core.List.{append-nil}
use barbacane.RateLimiter.{SlidingWindow, RateLimitResult, is_live, check_and_record}

-- The requests that still count against the quota.
abbrev pub live : SlidingWindow → ℕ → List ℕ
live w now = retain (is_live w.window now) w.timestamps

-- What a window and a result say of a request at an instant.
pub record Decision (w : SlidingWindow) (quota now : ℕ) (w' : SlidingWindow) (r : RateLimitResult)
    : Type 0 where
  pub allowed_eq : r.allowed ≡ ltb (length (live w now)) quota
  pub recorded : w'.timestamps ≡ live w now ++ (if r.allowed then now ∷ [] else [])
  pub remaining_eq : r.remaining ≡ quota - length w'.timestamps
  pub same_window : w'.window ≡ w.window
  pub same_limit : r.limit ≡ quota

-- On a window of fewer than 2^32 timestamps a request is allowed exactly when fewer than `quota`
-- live requests are recorded. The live requests are kept, an allowed request is recorded behind
-- them and a blocked one is not, and what remains is the quota less all that are then recorded, or
-- nothing.
pub check_and_record-Decision :
    (w : SlidingWindow) (quota now unix : ℕ)
    → length w.timestamps < 2 ^ 32
    → let r = check_and_record w quota now unix in Decision w quota now r.0 r.1
unfolding check_and_record
check_and_record-Decision w quota now unix fits =
    let le = length-retain-le (is_live w.window now) w.timestamps in
    let one = length-append (live w now) (now ∷ []) in
    let nil = append-nil (live w now) in ground (arith, le, one, nil)
