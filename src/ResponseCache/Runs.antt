-- ===== src/ResponseCache/Runs.antt =====
-- Runs of the response cache.
use barbacane.Common.{◌≡◌, ◌⊎◌, refl, true, none, some, [], ◌∷◌, arith, lookup, from_secs}
use barbacane.ResponseCache.{
  ResponseCache, CacheEntry, InternalEntry, Reading, new, new_entry, with_metadata, get, set,
}
use barbacane.ResponseCache.Bounds.{Bounded, run, gets, sets, run-new-Bounded}
use barbacane.ResponseCache.View.{view, get-set}
use barbacane.ResponseCache.Eviction.{IsVictim, view-set_others}

abbrev page : CacheEntry
page = record { status = 200; headers = []; body = some (1 ∷ []); metadata = none }

abbrev held : InternalEntry
held = record { entry = page; expires_at = from_secs 9; created_at = 0; ttl_secs = 9 }

abbrev cache : ResponseCache
cache = record (new 0) { entries = ("a", held) ∷ [] }

abbrev reading : Reading
reading = record {
  cleanup_now = from_secs 5;
  last_lock = true;
  entries_lock = true;
  now = from_secs 5;
  unix = 100;
  elapsed_now = from_secs 5;
}

run-new-Bounded_example : Bounded (run (new 0) (sets "a" page 9 0 ∷ gets "a" reading ∷ []))
run-new-Bounded_example = run-new-Bounded 0 (sets "a" page 9 0 ∷ gets "a" reading ∷ [])

get-set_example :
    (get (set (new 0) "a" page 9 0) "a" reading).1
    ≡ record { hit = true; entry = some (with_metadata (new_entry page 9 0) reading) }
get-set_example =
    get-set (new 0) "a" page 9 0 reading (record { unique = tt; few = omega arith }) (omega arith)
      (omega arith)

view-set_others_example :
    (view (set cache "ab" page 5 0) (from_secs 5) "a" ≡ view cache (from_secs 5) "a")
    ⊎ IsVictim cache.entries "ab" 0 "a"
unfolding lookup
view-set_others_example =
    view-set_others "ab" 0 (from_secs 5) "a" cache page 5 (λ e. cc) (refl, tt) (omega arith)
