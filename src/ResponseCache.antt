-- ===== src/ResponseCache.antt =====
-- crates/barbacane-wasm/src/cache.rs: the response cache. A call runs without interference of other
-- threads; whether its `try_write` calls get their locks is part of the reading that it is given.
mod View
mod Bounds
mod Eviction
mod Runs
use barbacane.Common.{
  ℕ, String, ◌+◌, ◌-◌, min, Bool, true, false, not, ◌&&◌, ltb, leb, if◌then◌else◌, List, [], ◌∷◌,
  Option, none, some, length, retain, unwrap_or, Dict, lookup, insert, remove, contains_key,
  from_secs, as_secs, duration_since, checked_add, saturating_add,
}

abbrev pub max_ttl_secs : ℕ
max_ttl_secs = 31622400

abbrev pub max_cache_entries : ℕ
max_cache_entries = 10000

pub record CacheMetadata : Type 0 where
  pub created_at : ℕ
  pub expires_at : ℕ
  pub ttl_remaining : ℕ

pub record CacheEntry : Type 0 where
  pub status : ℕ
  pub headers : Dict String
  pub body : Option (List ℕ)
  pub metadata : Option CacheMetadata

pub record InternalEntry : Type 0 where
  pub entry : CacheEntry
  pub expires_at : ℕ
  pub created_at : ℕ
  pub ttl_secs : ℕ

pub record CacheResult : Type 0 where
  pub hit : Bool
  pub entry : Option CacheEntry

pub record ResponseCache : Type 0 where
  pub entries : Dict InternalEntry
  pub cleanup_interval : ℕ
  pub last_cleanup : ℕ

-- `ResponseCache::new`, at an instant.
abbrev pub new : ℕ → ResponseCache
new now = record { entries = []; cleanup_interval = from_secs 60; last_cleanup = now }

-- What a `get` reads of the clocks, in order, and whether it gets the locks that it tries.
pub record Reading : Type 0 where
  pub cleanup_now : ℕ
  pub last_lock : Bool
  pub entries_lock : Bool
  pub now : ℕ
  pub unix : ℕ
  pub elapsed_now : ℕ

-- The predicate of both `retain` calls.
abbrev pub is_live : ℕ → String × InternalEntry → Bool
is_live now (key, v) = ltb now v.expires_at

clean : ResponseCache → Reading → ResponseCache
clean c rd = record c {
  entries = if rd.entries_lock then retain (is_live rd.cleanup_now) c.entries else c.entries;
  last_cleanup = rd.cleanup_now;
}

pub maybe_cleanup : ResponseCache → Reading → ResponseCache
unfolding clean
maybe_cleanup c rd =
    if ltb (duration_since rd.cleanup_now c.last_cleanup) c.cleanup_interval
    then c
    else if rd.last_lock
    then clean c rd
    else c

abbrev pub miss : CacheResult
miss = record { hit = false; entry = none }

-- The entry that a hit returns, with fresh metadata.
abbrev pub with_metadata : InternalEntry → Reading → CacheEntry
with_metadata internal rd =
    let ttl_remaining = as_secs (duration_since internal.expires_at rd.now) in
    record (internal.entry) {
      metadata = some (record {
        created_at = rd.unix - as_secs (duration_since rd.elapsed_now internal.created_at);
        expires_at = saturating_add rd.unix ttl_remaining;
        ttl_remaining = ttl_remaining;
      });
    }

abbrev pub hit_or_miss : Option InternalEntry → Reading → CacheResult
hit_or_miss none rd = miss
hit_or_miss (some internal) rd =
    if ltb rd.now internal.expires_at
    then record { hit = true; entry = some (with_metadata internal rd) }
    else miss

pub get : ResponseCache → String → Reading → ResponseCache × CacheResult
unfolding maybe_cleanup
get c key rd = let c' = maybe_cleanup c rd in (c', hit_or_miss (lookup key c'.entries) rd)

-- `iter().min_by_key(|(_, v)| v.expires_at)`: the first of the least.
unfoldable pub min_by_expiry : String × InternalEntry → Dict InternalEntry → String × InternalEntry
min_by_expiry best [] = best
min_by_expiry best (e ∷ m) =
    min_by_expiry (if ltb e.1.expires_at best.1.expires_at then e else best) m

evict_closest : Dict InternalEntry → Dict InternalEntry
unfolding min_by_expiry
evict_closest [] = []
evict_closest (e ∷ m) = remove (min_by_expiry e m).0 (e ∷ m)

make_room : Dict InternalEntry → String → ℕ → Dict InternalEntry
unfolding evict_closest
make_room m key now =
    if leb max_cache_entries (length m) && not (contains_key key m)
    then (let live = retain (is_live now) m in
        if leb max_cache_entries (length live) then evict_closest live else live)
    else m

abbrev pub new_entry : CacheEntry → ℕ → ℕ → InternalEntry
new_entry entry ttl_secs now = record {
  entry = entry;
  expires_at = unwrap_or (checked_add now (from_secs ttl_secs)) now;
  created_at = now;
  ttl_secs = ttl_secs;
}

pub set : ResponseCache → String → CacheEntry → ℕ → ℕ → ResponseCache
unfolding make_room
set c key entry ttl_secs now = record c {
  entries =
      insert key (new_entry entry (min ttl_secs max_ttl_secs) now) (make_room c.entries key now);
}

pub invalidate : ResponseCache → String → ResponseCache
invalidate c key = record c { entries = remove key c.entries }

pub clear : ResponseCache → ResponseCache
clear c = record c { entries = [] }

pub record CacheStats : Type 0 where
  pub total_entries : ℕ
  pub valid_entries : ℕ

pub stats : ResponseCache → ℕ → CacheStats
stats c now = record {
  total_entries = length c.entries;
  valid_entries = length (retain (is_live now) c.entries);
}
