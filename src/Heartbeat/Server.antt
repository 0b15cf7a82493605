-- ===== src/Heartbeat/Server.antt =====
-- coordinator/heartbeat_server.py: the state that the threads share and the calls that change it.
-- Cassandra, the sockets and the clock are answers of the environment, which may depend on all
-- that happened before. Times are whole microseconds, and 0 stands for the 0.0 of an unset time.
pub mod Calls
pub mod Register
pub mod Receive
pub mod Timeout
pub mod Preload
pub mod Keeps
pub mod Guard
pub mod Replay
pub mod Threads
use smartedge.Base.{ℕ, ◌≡◌, Bool, Option, none, some, List, [], ◌∷◌, ◌++◌, ◌||◌}
use smartedge.Base.{Text, or_default, is_some, if◌then◌else◌, Bool-cases}
use smartedge.Base.Bytes.{Bytes}
use smartedge.Base.Dict.{Dict, lookup, insert}
use smartedge.Base.Exec.{Exec, Result, ok, raised, db_error, return, ◌>>=◌, ◌>>◌}

-- The `status` column: 'registered' | 'alive' | 'dead'.
pub data Status : Type 0 where
  registered alive dead : Status

-- A value of `STATE`: a dict whose keys may be missing.
pub record Entry : Type 0 where
  pub public_key : Option Bytes
  pub last_i : Option ℕ
  pub status : Option Status
  pub last_ts : Option ℕ

abbrev pub no_entry : Entry
no_entry = record { public_key = none; last_i = none; status = none; last_ts = none }

pub data Reply : Type 0 where
  ack nack : Reply

-- What the server does to the outside.
pub data Event : Type 0 where
  upsert_key : Text → Bytes → Event
  upsert_hb : Text → ℕ → ℕ → Status → Event
  get_key get_hb notify : Text → Event
  answer : Reply → Event

-- A row of `heartbeat_state`, whose columns may be null.
pub record HbRow : Type 0 where
  pub last_i : Option ℕ
  pub last_ts : Option ℕ
  pub status : Option Status

-- The answers to an event, from the events before it. `none` is an exception, and a `none` inside
-- is a missing row.
pub record Env : Type 0 where
  pub write : List Event → Event → Bool
  pub key_row : List Event → Text → Option (Option Bytes)
  pub hb_row : List Event → Text → Option (Option HbRow)
  pub send : List Event → Reply → Bool
  pub now_ts : List Event → ℕ
  pub notify_ip : Bool

pub record Server : Type 0 where
  pub state : Dict Entry
  pub events : List Event

abbrev pub log : Server → Event → Server
log s e = record s { events = s.events ++ e ∷ [] }

-- `session.execute` of a statement that writes.
unfoldable pub execute : Env → Event → Exec Server (Unit {0})
execute env e s = if env.write s.events e then (ok tt, log s e) else (raised db_error, log s e)

-- `conn.sendall`
unfoldable pub sendall : Env → Reply → Exec Server (Unit {0})
sendall env r s =
    if env.send s.events r then (ok tt, log s (answer r)) else (raised db_error, log s (answer r))

-- `STATE.setdefault(node_uuid, {})`
abbrev pub entry_of : Text → Server → Entry
entry_of node s = or_default (lookup node s.state) no_entry

-- `s.setdefault(key, value)`
abbrev pub set_default {ℓ} : {A : Type ℓ} → Option A → A → Option A
set_default none d = some d
set_default (some a) d = some a

-- What `save_pubkey` does to the cache.
unfoldable pub cache_key : Text → Bytes → Server → Server
cache_key node key s =
    let e = entry_of node s in
    record s {
      state =
          insert node
            (record {
              public_key = some key;
              last_i = set_default e.last_i 0;
              status = set_default e.status registered;
              last_ts = set_default e.last_ts 0;
            })
            s.state;
    }

unfoldable pub save_pubkey : Env → Text → Bytes → Exec Server (Unit {0})
unfolding execute cache_key ◌>>=◌
save_pubkey env node key = do execute env (upsert_key node key); λ s. (ok tt, cache_key node key s)

-- What `save_hb_state` does to the cache.
unfoldable pub cache_hb : Text → ℕ → Status → ℕ → Server → Server
cache_hb node i st ts s = record s {
  state =
      insert node
        (record (entry_of node s) { last_i = some i; status = some st; last_ts = some ts }) s.state;
}

unfoldable pub save_hb_state : Env → Text → ℕ → Status → Exec Server (Unit {0})
unfolding execute cache_hb ◌>>=◌
save_hb_state env node i st s =
    let ts = env.now_ts s.events in
    (execute env (upsert_hb node i ts st) >>= λ _ t. (ok tt, cache_hb node i st ts t)) s

-- A read of a row, which may raise.
abbrev select {ℓ} : {A : Type ℓ} → (List Event → Option A) → Event → Server → Result A × Server
select row e s = elim (row s.events) [
  | none ↦ (raised db_error, log s e)
  | some a ↦ (ok a, log s e)
]

-- `if pk:`, which an empty key fails.
abbrev pub nonempty : Option Bytes → Option Bytes
nonempty (some (b ∷ bs)) = some (b ∷ bs)
nonempty _ = none

stored_key : Env → Text → Option Bytes → Exec Server (Option Bytes)
unfolding save_pubkey return
stored_key env node none = return none
stored_key env node (some key) = do save_pubkey env node key; return (some key)

unfoldable pub get_pubkey : Env → Text → Exec Server (Option Bytes)
unfolding stored_key ◌>>=◌
get_pubkey env node s = elim (nonempty (entry_of node s).public_key) [
  | some key ↦ (ok (some key), s)
  | none ↦ (select (λ before. env.key_row before node) (get_key node) >>= stored_key env node) s
]

pub record HbState : Type 0 where
  pub last_i : ℕ
  pub last_ts : ℕ
  pub status : Status

-- The defaults `0, 0.0, "registered"` for what is missing.
abbrev pub with_defaults : Option ℕ → Option ℕ → Option Status → HbState
with_defaults i ts st = record {
  last_i = or_default i 0;
  last_ts = or_default ts 0;
  status = or_default st registered;
}

stored_hb : Env → Text → Option HbRow → Exec Server HbState
unfolding save_hb_state return
stored_hb env node none = return (with_defaults none none none)
stored_hb env node (some row) = do
  let h = with_defaults row.last_i row.last_ts row.status
  save_hb_state env node h.last_i h.status
  return h

-- `if s:`, which a missing entry and an empty dict fail.
abbrev pub has_keys : Entry → Bool
has_keys e = is_some e.public_key || is_some e.last_i || is_some e.status || is_some e.last_ts

unfoldable pub get_hb_state : Env → Text → Exec Server HbState
unfolding stored_hb ◌>>=◌
get_hb_state env node s =
    let e = entry_of node s in
    let from_db =
      (select (λ before. env.hb_row before node) (get_hb node) >>= stored_hb env node) s in
    if has_keys e then (ok (with_defaults e.last_i e.last_ts e.status), s) else from_db
