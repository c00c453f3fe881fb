-- ===== src/ResponseCache/View.antt =====
-- crates/barbacane-wasm/src/cache.rs: the cache as a function from instants and keys to live entries.
use barbacane.Common.{
  ℕ, String, ◌+◌, ◌≤◌, ◌≡◌, refl, ap, ◌∙◌, true, ltb, if◌then◌else◌, Option, none, some, min, arith,
  lookup, HasUniqueKeys, lookup-insert, lookup-remove, lookup-retain, filter_value, str_eq,
  str_eq_refl, instant_max, from_secs,
}
use barbacane.ResponseCache.Bounds.{Bounded, set-Bounded}
use barbacane.ResponseCache.{
  ResponseCache, InternalEntry, CacheEntry, CacheResult, Reading, new_entry, is_live, clean,
  maybe_cleanup, get, hit_or_miss, with_metadata, make_room, set, invalidate, max_ttl_secs, miss,
}

-- What the cache is for: the entries that have not expired, by instant and key.
abbrev pub view : ResponseCache → ℕ → String → Option InternalEntry
view c now key = filter_value (is_live now) key (lookup key c.entries)

-- An entry that is dropped at an instant is not live later.
pub filter_value_twice :
    (now later : ℕ) (key : String) (o : Option InternalEntry)
    → now ≤ later
    → filter_value (is_live later) key (filter_value (is_live now) key o)
      ≡ filter_value (is_live later) key o
filter_value_twice now later key o h = ground arith

-- The cleanup cannot be observed at its instant or later.
view-maybe_cleanup :
    (c : ResponseCache) (rd : Reading) (now : ℕ) (key : String)
    → HasUniqueKeys c.entries
    → rd.cleanup_now ≤ now
    → view (maybe_cleanup c rd) now key ≡ view c now key
unfolding maybe_cleanup clean
view-maybe_cleanup c rd now key u h = ground (
  arith,
  lookup-retain (is_live rd.cleanup_now) key c.entries u,
  filter_value_twice rd.cleanup_now now key (lookup key c.entries) h,
)

abbrev pub answer_of : Option InternalEntry → Reading → CacheResult
answer_of none rd = miss
answer_of (some e) rd = record { hit = true; entry = some (with_metadata e rd) }

hit_or_miss-answer_of :
    (key : String) (o : Option InternalEntry) (rd : Reading)
    → hit_or_miss o rd ≡ answer_of (filter_value (is_live rd.now) key o) rd
hit_or_miss-answer_of key none rd = refl
hit_or_miss-answer_of key (some e) rd = ground arith

-- In a cache that holds no key twice, and where the clock is not read backwards: a `get` answers
-- with the live entry of its key, fresh metadata added, and misses if there is none; it changes
-- the view of no key at an instant that is not before its cleanup.
get-view :
    (c : ResponseCache) (key : String) (rd : Reading) (now : ℕ) (j : String)
    → HasUniqueKeys c.entries
    → rd.cleanup_now ≤ rd.now
    → rd.cleanup_now ≤ now
    → ((get c key rd).1 ≡ answer_of (view c rd.now key) rd)
      × (view (get c key rd).0 now j ≡ view c now j)
unfolding get
get-view c key rd now j u h k = (
  hit_or_miss-answer_of key (lookup key (maybe_cleanup c rd).entries) rd
      ∙ ap (λ o. answer_of o rd) (view-maybe_cleanup c rd rd.now key u h),
  view-maybe_cleanup c rd now j u k,
)

view-set :
    (c : ResponseCache) (key : String) (entry : CacheEntry) (ttl_secs now t : ℕ)
    → view (set c key entry ttl_secs now) t key
      ≡ filter_value (is_live t) key (some (new_entry entry (min ttl_secs max_ttl_secs) now))
unfolding set
view-set c key entry ttl_secs now t = rw (
  lookup-insert key key (new_entry entry (min ttl_secs max_ttl_secs) now)
      (make_room c.entries key now),
  str_eq_refl key,
)

expires_at-new_entry :
    (entry : CacheEntry) (ttl_secs now : ℕ)
    → ttl_secs ≤ max_ttl_secs
    → now + from_secs max_ttl_secs ≤ instant_max
    → (new_entry entry ttl_secs now).expires_at ≡ now + from_secs ttl_secs
expires_at-new_entry entry ttl_secs now h fits = ground arith

answer_of-filter_value :
    (t deadline : ℕ) (key : String) (e : InternalEntry) (rd : Reading)
    → e.expires_at ≡ deadline
    → answer_of (filter_value (is_live t) key (some e)) rd
      ≡ (if ltb t deadline then record { hit = true; entry = some (with_metadata e rd) } else miss)
answer_of-filter_value t deadline key e rd h = ground arith

-- After a `set` in a bounded cache, a `get` of the key hits until the clamped time to live has run
-- out, and then misses, where the longest time to live does not overflow and the clock is not read
-- backwards. The hit returns the entry that was set, with metadata.
pub get-set :
    (c : ResponseCache) (key : String) (entry : CacheEntry) (ttl_secs now : ℕ) (rd : Reading)
    → Bounded c
    → now + from_secs max_ttl_secs ≤ instant_max
    → rd.cleanup_now ≤ rd.now
    → let ttl = min ttl_secs max_ttl_secs in
      (get (set c key entry ttl_secs now) key rd).1 ≡ (
        if ltb rd.now (now + from_secs ttl)
        then record { hit = true; entry = some (with_metadata (new_entry entry ttl now) rd) }
        else miss)
get-set c key entry ttl_secs now rd v fits h =
    let ttl = min ttl_secs max_ttl_secs in
    let unique = (set-Bounded c key entry ttl_secs now v).unique in
    (get-view (set c key entry ttl_secs now) key rd rd.now key unique h h).0
    ∙ ap (λ o. answer_of o rd) (view-set c key entry ttl_secs now rd.now)
    ∙ answer_of-filter_value rd.now (now + from_secs ttl) key (new_entry entry ttl now) rd
        (expires_at-new_entry entry ttl now (omega arith) fits)

-- In a cache that holds no key twice, an invalidated key has no entry at any instant, and the
-- other keys keep theirs.
pub view-invalidate :
    (c : ResponseCache) (key : String) (now : ℕ) (j : String)
    → HasUniqueKeys c.entries
    → view (invalidate c key) now j ≡ (if str_eq key j then none else view c now j)
unfolding invalidate
view-invalidate c key now j u = ground (arith, lookup-remove key j c.entries u)
