-- ===== src/Heartbeat/Server/Calls.antt =====
-- The calls on the shared state, while the database answers and the node is in the cache.
use smartedge.Base.{ℕ, ◌≡◌, true, Option, some, List, ◌∷◌}
use smartedge.Base.{Text, or_default}
use smartedge.Base.Bytes.{Bytes}
use smartedge.Base.Dict.{lookup, lookup-insert_self}
use smartedge.Base.Exec.{ok}
use smartedge.Heartbeat.Server.{
  Status, Event, upsert_key, upsert_hb, Env, Server, log, cache_hb, cache_key, save_pubkey,
  save_hb_state, get_pubkey, get_hb_state,
}

-- Every statement that writes succeeds.
abbrev pub IsUp : Env → Type 0
IsUp env = (before : List Event) (e : Event) → env.write before e ≡ true

-- The state after a saved heartbeat: the row is written, and then the cache.
abbrev pub after_hb : Env → Text → ℕ → Status → Server → Server
after_hb env node i st s =
    let ts = env.now_ts s.events in cache_hb node i st ts (log s (upsert_hb node i ts st))

abbrev pub after_key : Text → Bytes → Server → Server
after_key node key s = cache_key node key (log s (upsert_key node key))

module _ (env : Env) (up : IsUp env) where
  pub save_hb_state-IsUp :
      (node : Text) (i : ℕ) (st : Status) (s : Server)
      → save_hb_state env node i st s ≡ (ok tt, after_hb env node i st s)
  unfolding save_hb_state
  save_hb_state-IsUp node i st s = rw (up s.events (upsert_hb node i (env.now_ts s.events) st))

  pub save_pubkey-IsUp :
      (node : Text) (key : Bytes) (s : Server)
      → save_pubkey env node key s ≡ (ok tt, after_key node key s)
  unfolding save_pubkey
  save_pubkey-IsUp node key s = rw (up s.events (upsert_key node key))

-- The cached entry of a node with a key, which is not empty.
pub record IsCached (node : Text) (b : ℕ) (key : Bytes) (last : ℕ) (st : Status) (s : Server)
    : Type 0 where
  pub last_ts : Option ℕ
  pub entry :
      lookup node s.state
      ≡ some (record {
        public_key = some (b ∷ key);
        last_i = some last;
        status = some st;
        last_ts = last_ts;
      })

module _ (node : Text) (b : ℕ) (key : Bytes) (last : ℕ) (st : Status) (s : Server)
    (c : IsCached node b key last st s) where
  pub get_pubkey-IsCached : (env : Env) → get_pubkey env node s ≡ (ok (some (b ∷ key)), s)
  unfolding get_pubkey
  get_pubkey-IsCached env = rw (c.entry, get_pubkey)

  pub get_hb_state-IsCached :
      (env : Env)
      → get_hb_state env node s
        ≡ (ok (record { last_i = last; last_ts = or_default c.last_ts 0; status = st }), s)
  unfolding get_hb_state
  get_hb_state-IsCached env = rw (c.entry)

  -- A saved heartbeat keeps the key, and sets the index.
  pub cache_hb-IsCached :
      (env : Env) (i : ℕ) (st' : Status) → IsCached node b key i st' (after_hb env node i st' s)
  unfolding cache_hb
  cache_hb-IsCached env i st' = record {
    last_ts = some (env.now_ts s.events);
    entry = rw (c.entry) (lookup-insert_self node _ s.state);
  }
