-- ===== src/Heartbeat/Server/Threads/Laws.antt =====
-- One handler alone, and what may happen to several.
use smartedge.Base.{ℕ, ◌≡◌, false, none, some, ◌∷◌, arith}
use smartedge.Base.{Text, ◌=?◌, if◌then◌else◌}
use smartedge.Base.Bytes.{Bytes}
use smartedge.Base.Dict.{Dict, lookup-insert_self}
use smartedge.Base.Exec.{ok, return, lift, try_except, ◌>>=◌}
use smartedge.Heartbeat.Wire.{Datagram, parse_datagram}
use smartedge.Heartbeat.Server.{
  Env, Entry, Event, Server, log, upsert_hb, alive, execute, cache_hb, save_hb_state,
}
use smartedge.Heartbeat.Server.Calls.{IsUp}
use smartedge.Heartbeat.Server.Receive.{rounds, accept, handle_hb_datagram}
use smartedge.Heartbeat.Server.Receive.Laws.{is_fresh, verify-IsCached}
use smartedge.Heartbeat.Server.Keeps.{Changes, Closed}
use smartedge.Heartbeat.Server.Keeps.Handlers.{nodup_closed, other_closed}
use smartedge.Heartbeat.Server.Guard.{Holds, keeps-Holds}
use smartedge.Heartbeat.Server.Threads.{Write, check, store_row, store_entry, finish}

-- alone
pub handle-check :
    (hash : Bytes → Bytes) (env : Env) (bytes : Bytes) (s : Server)
    → (check hash env bytes >>= finish env) s ≡ handle_hb_datagram hash env bytes s
unfolding check finish store_row store_entry save_hb_state execute handle_hb_datagram accept return
    lift try_except ◌>>=◌
handle-check hash env bytes s = ground arith

module _ (hash : Bytes → Bytes) (env : Env) (up : IsUp env) (b : ℕ) (key : Bytes) where
  -- A node of the cache.
  pub check-own :
      (d : Datagram) (bytes : Bytes) (last : ℕ) (s : Server)
      → parse_datagram hash bytes ≡ ok d
      → Holds d.client_id b key last s
      → check hash env bytes s ≡ (
        ok (
            if is_fresh hash (b ∷ key) last d
            then some (record { client_id = d.client_id; index = rounds d.index })
            else none),
        s,
      )
  unfolding check return lift try_except ◌>>=◌
  check-own d bytes last s parsed c =
      ground (arith, parsed, verify-IsCached hash env up d b key last c.status s c.cached)

  pub store_row-IsUp :
      (w : Write) (s : Server)
      → store_row env w s ≡ (
        ok (some (env.now_ts s.events)),
        log s (upsert_hb w.client_id w.index (env.now_ts s.events) alive),
      )
  unfolding store_row execute try_except return ◌>>=◌
  store_row-IsUp w s =
      ground (arith, up s.events (upsert_hb w.client_id w.index (env.now_ts s.events) alive))

  -- The row does not touch the cache.
  pub logged-Holds :
      (node : Text) (last : ℕ) (e : Event) (s : Server)
      → Holds node b key last s
      → Holds node b key last (log s e)
  logged-Holds node last e s c = record {
    status = c.status;
    cached = record { last_ts = c.cached.last_ts; entry = c.cached.entry };
    distinct = c.distinct;
  }

  store_entry-Changes :
      {P : Text → Type 0} {R : Dict Entry → Dict Entry → Type 0}
      → Closed P R
      → (w : Write) (ts : ℕ) → P w.client_id
      → Changes R (store_entry w ts)
  unfolding store_entry cache_hb
  store_entry-Changes closed w ts p = record { runs = λ s. closed.inserts w.client_id _ s.state p }

  pub store_entry-Holds :
      (w : Write) (ts last : ℕ) (s : Server)
      → Holds w.client_id b key last s
      → Holds w.client_id b key w.index (store_entry w ts s).1
  unfolding store_entry cache_hb
  store_entry-Holds w ts last s c = record {
    status = alive;
    cached = record {
      last_ts = some ts;
      entry = rw (c.cached.entry) (lookup-insert_self w.client_id _ s.state);
    };
    distinct = (store_entry-Changes nodup_closed w ts tt).runs s c.distinct;
  }

  pub store_entry-other :
      (node : Text) (last : ℕ) (w : Write) (ts : ℕ) (s : Server)
      → (node =? w.client_id) ≡ false
      → Holds node b key last s
      → Holds node b key last (store_entry w ts s).1
  store_entry-other node last w ts s h c =
      keeps-Holds node b key last (store_entry w ts) s (store_entry-Changes nodup_closed w ts tt)
        (store_entry-Changes (other_closed node) w ts h) c
