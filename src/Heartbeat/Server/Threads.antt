-- ===== src/Heartbeat/Server/Threads.antt =====
-- Handlers of datagrams side by side. `udp_server` starts a thread for each; a thread holds the
-- lock while it reads the state and while it writes it, and not in between: the row of the
-- database is written before the lock is taken. `tcp_server` starts a thread for a registration.
pub mod Laws
pub mod Unforged
pub mod Overtaken
use smartedge.Base.{ℕ, ◌≡◌, Bool, true, Option, none, some, List, [], ◌∷◌, ◌++◌}
use smartedge.Base.{Text}
use smartedge.Base.Bytes.{Bytes}
use smartedge.Base.Exec.{Exec, ok, return, lift, try_except, ◌>>=◌, ◌>>◌}
use smartedge.Heartbeat.Wire.{Datagram, parse_datagram}
use smartedge.Heartbeat.Server.{Env, Server, upsert_hb, alive, execute, cache_hb}
use smartedge.Heartbeat.Server.Receive.{rounds, verify}
use smartedge.Heartbeat.Server.Register.{Received, handle_tcp_client}
use smartedge.Heartbeat.Server.Timeout.{sweep}

-- A write that a thread has still to do.
pub record Write : Type 0 where
  pub client_id : Text
  pub index : ℕ

-- The handler up to its write: `none` where the datagram is dropped.
unfoldable pub check : (Bytes → Bytes) → Env → Bytes → Exec Server (Option Write)
unfolding return lift try_except ◌>>=◌ verify
check hash env bytes =
    try_except
      (do
        d ← lift (parse_datagram hash bytes)
        verify hash env d
        return (some (record { client_id = d.client_id; index = rounds d.index })))
      (λ _. return none)

-- The statement of `save_hb_state`, with its time: `none` where it failed.
unfoldable pub store_row : Env → Write → Exec Server (Option ℕ)
unfolding execute return try_except ◌>>=◌
store_row env w s =
    let ts = env.now_ts s.events in
    try_except (execute env (upsert_hb w.client_id w.index ts alive) >> return (some ts))
      (λ _. return none) s

-- The rest of `save_hb_state`, under the lock.
unfoldable pub store_entry : Write → ℕ → Exec Server (Unit {0})
unfolding cache_hb
store_entry w ts s = (ok tt, cache_hb w.client_id w.index alive ts s)

-- One handler after the other.
unfoldable pub finish : Env → Option Write → Exec Server (Unit {0})
unfolding return store_row store_entry ◌>>=◌
finish env none = return tt
finish env (some w) = do
  stored ← store_row env w
  elim stored [ none ↦ return tt | some ts ↦ store_entry w ts ]

-- The server, the threads that have checked their datagram and not written yet, and those that
-- have written the row and not the cache.
pub record System : Type 0 where
  pub server : Server
  pub writes : List Write
  pub stored : List (Write × ℕ)

abbrev pub waiting : Option Write → List Write
waiting none = []
waiting (some w) = w ∷ []

abbrev pub to_cache : Write → Option ℕ → List (Write × ℕ)
to_cache w none = []
to_cache w (some ts) = (w, ts) ∷ []

-- Any thread may be the next to run. A registration that is `admitted` runs as a whole.
pub data Step (hash : Bytes → Bytes) (env : Env) (limit : ℕ) (admitted : Received → Bool)
    (s : System) : System → Type 0 where
  arrive :
      (bytes : Bytes) {t : Server} {o : Option Write}
      → check hash env bytes s.server ≡ (ok o, t)
      → Step hash env limit admitted s
          (record { server = t; writes = s.writes ++ waiting o; stored = s.stored })
  write :
      (before : List Write) (w : Write) (later : List Write) {t : Server} {o : Option ℕ}
      → s.writes ≡ before ++ w ∷ later
      → store_row env w s.server ≡ (ok o, t)
      → Step hash env limit admitted s
          (record { server = t; writes = before ++ later; stored = s.stored ++ to_cache w o })
  cache :
      (before : List (Write × ℕ)) (w : Write) (ts : ℕ) (later : List (Write × ℕ))
      → s.stored ≡ before ++ (w, ts) ∷ later
      → Step hash env limit admitted s
          (record s { server = (store_entry w ts s.server).1; stored = before ++ later })
  registration :
      (got : Received)
      → admitted got ≡ true
      → Step hash env limit admitted s
          (record s { server = (handle_tcp_client env got s.server).1 })
  monitor : Step hash env limit admitted s (record s { server = (sweep env limit s.server).1 })

pub data Reach (hash : Bytes → Bytes) (env : Env) (limit : ℕ) (admitted : Received → Bool)
    (s : System) : System → Type 0 where
  start : Reach hash env limit admitted s s
  later :
      {t u : System}
      → Reach hash env limit admitted s t
      → Step hash env limit admitted t u
      → Reach hash env limit admitted s u
