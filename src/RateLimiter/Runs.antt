-- ===== src/RateLimiter/Runs.antt =====
-- Runs of the rate limiter.
use barbacane.Common.{◌≡◌, ◌≤◌, refl, true, [], ◌∷◌, length, arith, lookup, from_secs}
use barbacane.RateLimiter.{RateLimiter, SlidingWindow, Reading, new, check}
use barbacane.RateLimiter.History.{serve_all, start, recent, serve_all-recent-le}
use barbacane.RateLimiter.Bounds.{Bounded, check-Bounded, new-Bounded}
use barbacane.RateLimiter.Forgetting.{check_forgets}

abbrev window : SlidingWindow
window = record { timestamps = 3 ∷ 8 ∷ []; window = 10 }

serve_all-recent-le_example :
    length (recent 10 7 (serve_all 2 (start 10) ((1, 50) ∷ (2, 50) ∷ (3, 50) ∷ [])).accepted) ≤ 2
serve_all-recent-le_example =
    serve_all-recent-le 10 2 (omega arith) ((1, 50) ∷ (2, 50) ∷ (3, 50) ∷ []) 7
      (omega arith, (omega arith, (omega arith, tt))) (omega arith)

-- The instant 400 s after the limiter was made.
abbrev reading : Reading
reading = record {
  cleanup_now = from_secs 400;
  last_lock = true;
  windows_lock = true;
  evict_now = from_secs 400;
  evict_unix = 1400;
  now = from_secs 400;
  unix = 1400;
}

check-Bounded_example : Bounded (check (new 0) "client" 2 60 reading).0
check-Bounded_example = check-Bounded (new 0) "client" 2 60 reading (new-Bounded 0)

-- Two requests at 1 s and 2 s fill a quota of two in an hour.
abbrev hourly : SlidingWindow
hourly = record { timestamps = from_secs 1 ∷ from_secs 2 ∷ []; window = from_secs 3600 }

abbrev filled : RateLimiter
filled = record (new 0) { windows = ("client", hourly) ∷ [] }

check_forgets_example :
    ((check filled "client" 2 3600 reading).1.allowed ≡ true)
    × ((check filled "client" 2 3600 reading).1.remaining ≡ 1)
unfolding lookup
check_forgets_example =
    check_forgets filled "client" 2 3600 reading hourly
      (record { due = omega arith; last_free = refl; windows_free = refl }) (refl, tt) (omega arith)
      refl refl (omega arith)

abbrev active : RateLimiter
active = record (new 0) {
  windows = ("client", record hourly { timestamps = from_secs 350 ∷ [] }) ∷ [];
}
