-- ===== src/ResponseCache/Eviction.antt =====
-- crates/barbacane-wasm/src/cache.rs: what a `set` takes from the other keys.
use barbacane.Common.{
  ℕ, String, ◌≤◌, ◌≡◌, ◌≢◌, refl, ap, ◌∙◌, ◌⊎◌, false, ltb, if◌then◌else◌, [], ◌∷◌, Option, some,
  min, arith, length, retain, All, Dict, lookup, insert, contains_key, HasUniqueKeys, lookup-insert,
  lookup-remove, lookup-retain, retain-HasUniqueKeys, filter_value, str_eq, str_eq_iff, Bool-cases,
  inl, inr,
}
use native.Mathlib.Nat.{le_trans}
use barbacane.ResponseCache.{
  ResponseCache, InternalEntry, CacheEntry, is_live, min_by_expiry, evict_closest, make_room, set,
  max_cache_entries, new_entry, max_ttl_secs,
}
use barbacane.ResponseCache.Bounds.{lookup-min_by_expiry}
use barbacane.ResponseCache.View.{view, filter_value_twice}

abbrev closer : String × InternalEntry → String × InternalEntry → String × InternalEntry
closer best e = if ltb e.1.expires_at best.1.expires_at then e else best

closer-le :
    (best e : String × InternalEntry)
    → ((closer best e).1.expires_at ≤ best.1.expires_at)
      × ((closer best e).1.expires_at ≤ e.1.expires_at)
closer-le best e = ground arith

-- No entry expires before the chosen one.
min_by_expiry_least :
    (best : String × InternalEntry) (m : Dict InternalEntry)
    → All (λ e. (min_by_expiry best m).1.expires_at ≤ e.1.expires_at) (best ∷ m)
unfolding min_by_expiry
min_by_expiry_least best [] = (omega arith, tt)
min_by_expiry_least best (e ∷ m) =
    let ih = min_by_expiry_least (closer best e) m in
    let le = closer-le best e in (le_trans ih.0 le.0, (le_trans ih.0 le.1, ih.1))

-- An entry that a full cache gives up for a new key: it is live, and no live entry expires earlier.
pub record IsVictim (m : Dict InternalEntry) (key : String) (now : ℕ) (j : String) : Type 0 where
  pub entry : InternalEntry
  pub new_key : contains_key key m ≡ false
  pub full : max_cache_entries ≤ length (retain (is_live now) m)
  pub held : lookup j (retain (is_live now) m) ≡ some entry
  pub least : All (λ e. entry.expires_at ≤ e.1.expires_at) (retain (is_live now) m)

module _ (key : String) (now t : ℕ) (j : String) where
  abbrev seen : Dict InternalEntry → Option InternalEntry
  seen m = filter_value (is_live t) j (lookup j m)

  evict_closest_others :
      (m live : Dict InternalEntry)
      → retain (is_live now) m ≡ live
      → contains_key key m ≡ false
      → max_cache_entries ≤ length live
      → HasUniqueKeys live
      → (seen (evict_closest live) ≡ seen live) ⊎ IsVictim m key now j
  unfolding evict_closest
  evict_closest_others m [] e fresh full u = inl refl
  evict_closest_others m (x ∷ live) e fresh full u =
      let victim = min_by_expiry x live in
      elim (Bool-cases (str_eq victim.0 j)) [
        | inl same ↦ inr (record {
          entry = victim.1;
          new_key = fresh;
          full = rw e full;
          held = rw (e, ← (str_eq_iff victim.0 j).0 same) (lookup-min_by_expiry x live u);
          least = rw e (min_by_expiry_least x live);
        })
        | inr other ↦
            inl (ap (filter_value (is_live t) j) (lookup-remove victim.0 j (x ∷ live) u ∙ rw other))
      ]

  make_room_others :
      (m : Dict InternalEntry)
      → HasUniqueKeys m
      → now ≤ t
      → (seen (make_room m key now) ≡ seen m) ⊎ IsVictim m key now j
  unfolding make_room
  make_room_others m u h =
      let live = retain (is_live now) m in
      let kept = lookup-retain (is_live now) j m u in
      let later = filter_value_twice now t j (lookup j m) h in
      ground (
        arith,
        kept,
        later,
        evict_closest_others m live refl,
        retain-HasUniqueKeys (is_live now) m u,
      )

  -- In a cache that holds no key twice, a `set` of another key leaves what calls at that instant
  -- or later see of a key as it was, unless the cache is full of live entries, the key that is set
  -- is new, and the entry is one that no live entry expires before.
  pub view-set_others :
      (c : ResponseCache) (entry : CacheEntry) (ttl_secs : ℕ)
      → key ≢ j
      → HasUniqueKeys c.entries
      → now ≤ t
      → (view (set c key entry ttl_secs now) t j ≡ view c t j) ⊎ IsVictim c.entries key now j
  unfolding set
  view-set_others c entry ttl_secs ne u h =
      let e = new_entry entry (min ttl_secs max_ttl_secs) now in
      let room = make_room c.entries key now in
      let same : lookup j (insert key e room) ≡ lookup j room =
        lookup-insert key j e room ∙ ground (arith, str_eq_iff key j) in
      elim (make_room_others c.entries u h) [
        | inl p ↦ inl (ap (filter_value (is_live t) j) same ∙ p)
        | inr v ↦ inr v
      ]
