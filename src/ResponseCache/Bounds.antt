-- ===== src/ResponseCache/Bounds.antt =====
-- crates/barbacane-wasm/src/cache.rs: the number of entries that the cache holds.
use barbacane.Common.{
  ℕ, String, ◌≤◌, ◌<◌, ◌≡◌, refl, true, ltb, List, [], ◌∷◌, some, min, arith, length, retain, Dict,
  lookup, contains_key, HasUniqueKeys, retain-HasUniqueKeys, remove-HasUniqueKeys,
  insert-HasUniqueKeys, length-retain-le, length-remove, length-remove-le, length-insert,
  Bool-cases, inl, inr, Memᴰ, lookup-Memᴰ, ◌⊎◌,
}
use barbacane.ResponseCache.{
  ResponseCache, InternalEntry, CacheEntry, Reading, new, new_entry, is_live, clean, maybe_cleanup,
  get, min_by_expiry, evict_closest, make_room, set, invalidate, clear, max_cache_entries,
  max_ttl_secs,
}

pub record Bounded (c : ResponseCache) : Type 0 where
  pub unique : HasUniqueKeys c.entries
  pub few : length c.entries ≤ max_cache_entries

-- The entry that is chosen is one of those given.
min_by_expiry-Memᴰ :
    (best : String × InternalEntry) (m : Dict InternalEntry)
    → Memᴰ (min_by_expiry best m) (best ∷ m)
unfolding min_by_expiry
min_by_expiry-Memᴰ best [] = Memᴰ.head refl
min_by_expiry-Memᴰ best (e ∷ m) = elim (Bool-cases (ltb e.1.expires_at best.1.expires_at)) [
  | inl earlier ↦ rw earlier (Memᴰ.tail (min_by_expiry-Memᴰ e m))
  | inr later ↦ rw later (skip (min_by_expiry-Memᴰ best m))
]
  where
    skip : {a : String × InternalEntry} → Memᴰ a (best ∷ m) → Memᴰ a (best ∷ (e ∷ m))
    skip (Memᴰ.head p) = Memᴰ.head p
    skip (Memᴰ.tail h) = Memᴰ.tail (Memᴰ.tail h)

pub lookup-min_by_expiry :
    (e : String × InternalEntry) (m : Dict InternalEntry)
    → HasUniqueKeys (e ∷ m)
    → lookup (min_by_expiry e m).0 (e ∷ m) ≡ some (min_by_expiry e m).1
lookup-min_by_expiry e m u = lookup-Memᴰ (min_by_expiry e m) (e ∷ m) (min_by_expiry-Memᴰ e m) u

length-evict_closest :
    (m : Dict InternalEntry)
    → HasUniqueKeys m
    → length m ≤ max_cache_entries
    → length (evict_closest m) < max_cache_entries
unfolding evict_closest
length-evict_closest [] u h = omega arith
length-evict_closest (e ∷ m) u h = omega (
  arith,
  length-remove (min_by_expiry e m).0 (e ∷ m) (min_by_expiry e m).1 (lookup-min_by_expiry e m u),
  h,
)

evict_closest-HasUniqueKeys :
    (m : Dict InternalEntry) → HasUniqueKeys m → HasUniqueKeys (evict_closest m)
unfolding evict_closest
evict_closest-HasUniqueKeys [] u = tt
evict_closest-HasUniqueKeys (e ∷ m) u = remove-HasUniqueKeys (min_by_expiry e m).0 (e ∷ m) u

make_room-HasUniqueKeys :
    (m : Dict InternalEntry) (key : String) (now : ℕ)
    → HasUniqueKeys m
    → HasUniqueKeys (make_room m key now)
unfolding make_room
make_room-HasUniqueKeys m key now u =
    let kept = retain-HasUniqueKeys (is_live now) m u in
    ground (arith, kept, evict_closest-HasUniqueKeys (retain (is_live now) m) kept)

-- There is room for the key, or it is there already.
make_room-length :
    (m : Dict InternalEntry) (key : String) (now : ℕ)
    → HasUniqueKeys m
    → length m ≤ max_cache_entries
    → (length (make_room m key now) < max_cache_entries)
      ⊎ ((contains_key key m ≡ true) × (make_room m key now ≡ m))
unfolding make_room
make_room-length m key now u h =
    let kept = retain-HasUniqueKeys (is_live now) m u in
    let shorter = length-retain-le (is_live now) m in
    ground (arith, shorter, length-evict_closest (retain (is_live now) m) kept)

pub set-Bounded :
    (c : ResponseCache) (key : String) (entry : CacheEntry) (ttl_secs now : ℕ)
    → Bounded c
    → Bounded (set c key entry ttl_secs now)
unfolding set
set-Bounded c key entry ttl_secs now v =
    let e = new_entry entry (min ttl_secs max_ttl_secs) now in
    record {
      unique =
          insert-HasUniqueKeys key e (make_room c.entries key now)
            (make_room-HasUniqueKeys c.entries key now v.unique);
      few = ground (
        arith,
        make_room-length c.entries key now v.unique v.few,
        length-insert key e (make_room c.entries key now),
      );
    }

get-Bounded :
    (c : ResponseCache) (key : String) (rd : Reading) → Bounded c → Bounded (get c key rd).0
unfolding get maybe_cleanup clean
get-Bounded c key rd v = ground (
  arith,
  length-retain-le (is_live rd.cleanup_now) c.entries,
  retain-HasUniqueKeys (is_live rd.cleanup_now) c.entries v.unique,
)

invalidate-Bounded : (c : ResponseCache) (key : String) → Bounded c → Bounded (invalidate c key)
unfolding invalidate
invalidate-Bounded c key v = record {
  unique = remove-HasUniqueKeys key c.entries v.unique;
  few = omega (arith, length-remove-le key c.entries, v.few);
}

-- The calls that change the cache.
pub data Call : Type 0 where
  gets : String → Reading → Call
  sets : String → CacheEntry → ℕ → ℕ → Call
  invalidates : String → Call
  clears : Call

pub step : ResponseCache → Call → ResponseCache
step c (gets key rd) = (get c key rd).0
step c (sets key entry ttl_secs now) = set c key entry ttl_secs now
step c (invalidates key) = invalidate c key
step c clears = clear c

pub run : ResponseCache → List Call → ResponseCache
unfolding step
run c [] = c
run c (x ∷ xs) = run (step c x) xs

step-Bounded : (c : ResponseCache) (x : Call) → Bounded c → Bounded (step c x)
unfolding step clear
step-Bounded c (gets key rd) v = get-Bounded c key rd v
step-Bounded c (sets key entry ttl_secs now) v = set-Bounded c key entry ttl_secs now v
step-Bounded c (invalidates key) v = invalidate-Bounded c key v
step-Bounded c clears v = record { unique = tt; few = omega arith }

run-Bounded : (c : ResponseCache) (xs : List Call) → Bounded c → Bounded (run c xs)
unfolding run
run-Bounded c [] v = v
run-Bounded c (x ∷ xs) v = run-Bounded (step c x) xs (step-Bounded c x v)

-- Whatever calls are made of a new cache, it holds no key twice and at most `max_cache_entries`
-- entries.
pub run-new-Bounded : (now : ℕ) (xs : List Call) → Bounded (run (new now) xs)
run-new-Bounded now xs = run-Bounded (new now) xs (record { unique = tt; few = omega arith })
