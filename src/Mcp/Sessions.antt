-- ===== src/Mcp/Sessions.antt =====
-- crates/barbacane/src/mcp/session.rs: the session store. Each call runs under its lock.
pub mod Capacity
use barbacane.Common.{
  ℕ, String, Bool, true, false, ltb, leb, if◌then◌else◌, List, [], ◌∷◌, Option, none, some, length,
  retain, Dict, lookup, insert, remove, duration_since,
}

abbrev pub max_sessions : ℕ
max_sessions = 10000

-- The sessions, each by the instant of its last activity.
pub record SessionStore : Type 0 where
  pub sessions : Dict ℕ
  pub ttl : ℕ

abbrev pub new : ℕ → SessionStore
new ttl = record { sessions = []; ttl = ttl }

-- The predicate of both `retain` calls.
abbrev pub is_live : ℕ → ℕ → String × ℕ → Bool
is_live ttl now (id, last_active) = ltb (duration_since now last_active) ttl

-- What a call reads: the instants of the eviction and of the activity, and a fresh session's id.
pub record Reading : Type 0 where
  pub evict_now : ℕ
  pub active_now : ℕ
  pub uuid : String

unfoldable pub evict_expired : SessionStore → ℕ → SessionStore
evict_expired store now = record store { sessions = retain (is_live store.ttl now) store.sessions }

-- The insertion of a new session.
abbrev pub insert_session : SessionStore → Reading → Option String × SessionStore
insert_session store rd =
    (some rd.uuid, record store { sessions = insert rd.uuid rd.active_now store.sessions })

abbrev pub create_if_room : SessionStore → Reading → Option String × SessionStore
create_if_room store rd =
    if leb max_sessions (length store.sessions) then (none, store) else insert_session store rd

unfoldable pub create : SessionStore → Reading → Option String × SessionStore
create store rd =
    if leb max_sessions (length store.sessions)
    then create_if_room (evict_expired store rd.evict_now) rd
    else insert_session store rd

abbrev pub touch_found : SessionStore → String → ℕ → Option ℕ → Bool × SessionStore
touch_found store id now none = (false, store)
touch_found store id now (some last_active) =
    (true, record store { sessions = insert id now store.sessions })

unfoldable pub touch : SessionStore → String → ℕ → Bool × SessionStore
touch store id now = touch_found store id now (lookup id store.sessions)

-- `SessionStore::remove`
unfoldable pub remove_session : SessionStore → String → SessionStore
remove_session store id = record store { sessions = remove id store.sessions }
