-- ===== src/RateLimiter/History.antt =====
-- crates/barbacane-wasm/src/rate_limiter.rs: the bound that the sliding window keeps over a history.
use barbacane.Common.{
  ℕ, ◌≤◌, ◌<◌, ◌^◌, ◌≡◌, refl, ap, ◌∙◌, true, if◌then◌else◌, List, [], ◌∷◌, ◌++◌, length,
  length-append, length-retain-le, retain, retain-append, retain-retain, arith, Bool-cases, inl,
  inr,
}
use mathlib.Core.List.{append-nil}
use barbacane.RateLimiter.{SlidingWindow, RateLimitResult, is_live, check_and_record, new_window}
use barbacane.RateLimiter.Windows.{live, Decision, check_and_record-Decision}

-- The window, and every request that it has allowed so far.
pub record Served : Type 0 where
  pub window : SlidingWindow
  pub accepted : List ℕ

-- A request at an instant, with the wall clock's reading.
pub serve : ℕ → Served → ℕ × ℕ → Served
serve quota s (now, unix) =
    let (w, r) = check_and_record s.window quota now unix in
    record { window = w; accepted = if r.allowed then s.accepted ++ now ∷ [] else s.accepted }

pub serve_all : ℕ → Served → List (ℕ × ℕ) → Served
unfolding serve
serve_all quota s [] = s
serve_all quota s (req ∷ reqs) = serve_all quota (serve quota s req) reqs

abbrev pub start : ℕ → Served
start duration = record { window = new_window duration; accepted = [] }

-- The allowed requests of the window that ends at an instant.
abbrev pub recent : ℕ → ℕ → List ℕ → List ℕ
recent duration now = retain (is_live duration now)

-- The requests come in the order of the monotonic clock.
abbrev pub IsOrdered : ℕ → List (ℕ × ℕ) → Type 0
IsOrdered last [] = Unit
IsOrdered last ((now, unix) ∷ reqs) = (last ≤ now) × IsOrdered now reqs

abbrev pub last_instant : ℕ → List (ℕ × ℕ) → ℕ
last_instant last [] = last
last_instant last ((now, unix) ∷ reqs) = last_instant now reqs

module _ (duration quota : ℕ) (small : quota < 2 ^ 32) where
  record Faithful (last : ℕ) (s : Served) : Type 0 where
    same_window : s.window.window ≡ duration
    same_recent :
        (now : ℕ)
        → last ≤ now
        → recent duration now s.window.timestamps ≡ recent duration now s.accepted
    logged : length s.window.timestamps ≤ quota

  -- What is live later was live before.
  is_live_earlier :
      (now later t : ℕ)
      → now ≤ later
      → is_live duration later t ≡ true
      → is_live duration now t ≡ true
  is_live_earlier now later t h e = ground arith

  later_recent :
      (last now later : ℕ) (s : Served)
      → last ≤ now
      → now ≤ later
      → Faithful last s
      → recent duration later (live s.window now) ≡ recent duration later s.accepted
  later_recent last now later s h k v =
      ap (λ d. recent duration later (recent d now s.window.timestamps)) v.same_window
      ∙ retain-retain (is_live duration later) (is_live duration now) s.window.timestamps
          (λ t. is_live_earlier now later t k)
      ∙ v.same_recent later (omega arith)

  logged_le :
      (w : SlidingWindow) (now : ℕ) (w' : SlidingWindow) (r : RateLimitResult)
      → Decision w quota now w' r
      → length w.timestamps ≤ quota
      → length w'.timestamps ≤ quota
  logged_le w now w' r d h =
      let le = length-retain-le (is_live w.window now) w.timestamps in
      let one = length-append (live w now) (now ∷ []) in
      let nil = append-nil (live w now) in ground (arith, d.recorded, d.allowed_eq, le, one, nil)

  serve-Faithful_of_Decision :
      (last now : ℕ) (s : Served) (w : SlidingWindow) (r : RateLimitResult)
      → last ≤ now
      → Faithful last s
      → Decision s.window quota now w r
      → Faithful now (record {
        window = w;
        accepted = if r.allowed then s.accepted ++ now ∷ [] else s.accepted;
      })
  serve-Faithful_of_Decision last now s w r h v d = record {
    same_window = d.same_window ∙ v.same_window;
    same_recent = λ later k. elim (Bool-cases r.allowed) [
      | inl e ↦ rw (
        e,
        d.recorded,
        e,
        retain-append (is_live duration later) (live s.window now) (now ∷ []),
        retain-append (is_live duration later) s.accepted (now ∷ []),
        later_recent last now later s h k v,
      )
      | inr e ↦
          rw (e, d.recorded, e, append-nil (live s.window now))
            (later_recent last now later s h k v)
    ];
    logged = logged_le s.window now w r d v.logged;
  }

  serve-Faithful :
      (last now unix : ℕ) (s : Served)
      → last ≤ now
      → Faithful last s
      → Faithful now (serve quota s (now, unix))
  unfolding serve
  serve-Faithful last now unix s h v =
      let r = check_and_record s.window quota now unix in
      serve-Faithful_of_Decision last now s r.0 r.1 h v
        (check_and_record-Decision s.window quota now unix (omega (arith, v.logged, small)))

  serve_all-Faithful :
      (last : ℕ) (s : Served) (reqs : List (ℕ × ℕ))
      → IsOrdered last reqs
      → Faithful last s
      → Faithful (last_instant last reqs) (serve_all quota s reqs)
  unfolding serve_all
  serve_all-Faithful last s [] o v = v
  serve_all-Faithful last s ((now, unix) ∷ reqs) o v =
      serve_all-Faithful now (serve quota s (now, unix)) reqs o.1
        (serve-Faithful last now unix s o.0 v)

  start-Faithful : Faithful 0 (start duration)
  start-Faithful = record { same_window = refl; same_recent = λ now h. refl; logged = omega arith }

  -- For a quota below 2^32 and whatever requests arrive, in the order of the clock: at the last of
  -- them and at any later instant no more than `quota` of the allowed requests are younger than
  -- the window.
  pub serve_all-recent-le :
      (reqs : List (ℕ × ℕ)) (now : ℕ)
      → IsOrdered 0 reqs
      → last_instant 0 reqs ≤ now
      → length (recent duration now (serve_all quota (start duration) reqs).accepted) ≤ quota
  serve_all-recent-le reqs now o h =
      let v = serve_all-Faithful 0 (start duration) reqs o start-Faithful in
      rw (← v.same_recent now h) (
        omega (
          arith,
          length-retain-le (is_live duration now)
              (serve_all quota (start duration) reqs).window.timestamps,
          v.logged,
        ))
