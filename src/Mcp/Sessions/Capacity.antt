-- ===== src/Mcp/Sessions/Capacity.antt =====
-- crates/barbacane/src/mcp/session.rs: the number of sessions, and when a new one is refused.
use barbacane.Common.{
  ℕ, String, ◌≤◌, ◌≡◌, refl, ◌↔◌, List, [], ◌∷◌, Option, none, some, arith, length, retain, lookup,
  length-retain-le, length-remove-le, length-insert,
}
use barbacane.Mcp.Sessions.{
  SessionStore, Reading, max_sessions, new, is_live, evict_expired, create_if_room, create,
  touch_found, touch, remove_session,
}

abbrev pub Capped : SessionStore → Type 0
Capped store = length store.sessions ≤ max_sessions

evict_expired-length-le :
    (store : SessionStore) (now : ℕ)
    → length (evict_expired store now).sessions ≤ length store.sessions
unfolding evict_expired
evict_expired-length-le store now = length-retain-le (is_live store.ttl now) store.sessions

create_if_room-Capped :
    (store : SessionStore) (rd : Reading) → Capped store → Capped (create_if_room store rd).1
create_if_room-Capped store rd h =
    ground (arith, length-insert rd.uuid rd.active_now store.sessions, h)

create-Capped : (store : SessionStore) (rd : Reading) → Capped store → Capped (create store rd).1
unfolding create
create-Capped store rd h = ground (
  arith,
  length-insert rd.uuid rd.active_now store.sessions,
  h,
  create_if_room-Capped (evict_expired store rd.evict_now) rd,
  evict_expired-length-le store rd.evict_now,
)

touch-Capped :
    (store : SessionStore) (id : String) (now : ℕ) → Capped store → Capped (touch store id now).1
unfolding touch
touch-Capped store id now h = found (lookup id store.sessions) refl
  where
    found : (o : Option ℕ) → lookup id store.sessions ≡ o → Capped (touch_found store id now o).1
    found none e = h
    found (some last) e = ground (arith, length-insert id now store.sessions, h, e)

-- The calls that change the store.
pub data Call : Type 0 where
  creates : Reading → Call
  touches : String → ℕ → Call
  removes : String → Call
  evicts : ℕ → Call

pub step : SessionStore → Call → SessionStore
step store (creates rd) = (create store rd).1
step store (touches id now) = (touch store id now).1
step store (removes id) = remove_session store id
step store (evicts now) = evict_expired store now

pub run : SessionStore → List Call → SessionStore
unfolding step
run store [] = store
run store (call ∷ calls) = run (step store call) calls

step-Capped : (store : SessionStore) (call : Call) → Capped store → Capped (step store call)
unfolding step remove_session
step-Capped store (creates rd) h = create-Capped store rd h
step-Capped store (touches id now) h = touch-Capped store id now h
step-Capped store (removes id) h = omega (arith, length-remove-le id store.sessions, h)
step-Capped store (evicts now) h = omega (arith, evict_expired-length-le store now, h)

run-Capped : (store : SessionStore) (calls : List Call) → Capped store → Capped (run store calls)
unfolding run
run-Capped store [] h = h
run-Capped store (call ∷ calls) h = run-Capped (step store call) calls (step-Capped store call h)

-- The sessions that are live at an instant.
abbrev pub live_sessions : SessionStore → ℕ → ℕ
live_sessions store now = length (retain (is_live store.ttl now) store.sessions)

create-none_iff :
    (store : SessionStore) (rd : Reading)
    → Capped store
    → ((create store rd).0 ≡ none) ↔ (live_sessions store rd.evict_now ≡ max_sessions)
unfolding create evict_expired
create-none_iff store rd h =
    ground (arith, h, length-retain-le (is_live store.ttl rd.evict_now) store.sessions)

-- Whatever calls are made of a new store, it holds at most `max_sessions` sessions, and it refuses a new
-- one exactly if so many are live.
pub run-new-create-none_iff :
    (ttl : ℕ) (calls : List Call) (rd : Reading)
    → Capped (run (new ttl) calls)
      × (((create (run (new ttl) calls) rd).0 ≡ none)
          ↔ (live_sessions (run (new ttl) calls) rd.evict_now ≡ max_sessions))
run-new-create-none_iff ttl calls rd =
    let capped = run-Capped (new ttl) calls (omega arith) in
    (capped, create-none_iff (run (new ttl) calls) rd capped)
