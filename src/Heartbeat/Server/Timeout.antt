-- ===== src/Heartbeat/Server/Timeout.antt =====
-- `heartbeat_monitor` and `notify_dead` of coordinator/heartbeat_server.py.
pub mod Laws
use smartedge.Base.{ℕ, ◌+◌, Bool, true, false, [], ◌∷◌, ◌++◌, not, ◌&&◌, ◌==◌}
use smartedge.Base.{Text, ltb, or_default, if◌then◌else◌}
use smartedge.Base.Dict.{Dict}
use smartedge.Base.Exec.{Exec, ok, return, ◌>>=◌, ◌>>◌}
use smartedge.Heartbeat.Server.{
  Status, registered, alive, dead, Entry, notify, Env, Server, log, save_hb_state,
}

abbrev pub is_dead : Status → Bool
is_dead dead = true
is_dead registered = false
is_dead alive = false

-- `status != "dead" and last_ts and (now - last_ts > HEARTBEAT_TIMEOUT)`
unfoldable pub overdue : ℕ → ℕ → Entry → Bool
overdue limit now e =
    let last_ts = or_default e.last_ts 0 in
    not (is_dead (or_default e.status registered))
    && not (last_ts == 0)
    && ltb (last_ts + limit) now

-- Errors of the datagram are caught and logged.
unfoldable pub notify_dead : Env → Text → Exec Server (Unit {0})
notify_dead env node s = if env.notify_ip then (ok tt, log s (notify node)) else (ok tt, s)

-- The body of the `if`.
unfoldable pub mark_dead : Env → Text → Entry → Exec Server (Unit {0})
unfolding notify_dead ◌>>=◌
mark_dead env node e = do save_hb_state env node (or_default e.last_i 0) dead; notify_dead env node

unfoldable pub check_node : Env → ℕ → ℕ → Text → Entry → Exec Server (Unit {0})
check_node env limit now node e s =
    if overdue limit now e then mark_dead env node e s else (ok tt, s)

-- The loop over `list(STATE.items())`.
unfoldable pub check_nodes : Env → ℕ → ℕ → Dict Entry → Exec Server (Unit {0})
unfolding check_node return ◌>>=◌
check_nodes env limit now [] = return tt
check_nodes env limit now ((node, e) ∷ rest) = do
  check_node env limit now node e
  check_nodes env limit now rest

-- One round of the monitor, under the lock.
unfoldable pub sweep : Env → ℕ → Exec Server (Unit {0})
unfolding check_nodes
sweep env limit s = check_nodes env limit (env.now_ts s.events) s.state s
