-- ===== src/Heartbeat/Server/Preload.antt =====
-- `preload_cache` of coordinator/heartbeat_server.py, which fills the cache before the threads start.
use smartedge.Base.{Option, none, some, List, [], ◌∷◌}
use smartedge.Base.{Text, or_default}
use smartedge.Base.Bytes.{Bytes}
use smartedge.Base.Dict.{Dict, lookup, insert}
use smartedge.Base.Exec.{Result, ok, raised, db_error}
use smartedge.Heartbeat.Server.{Entry, no_entry, HbRow, with_defaults}

-- The rows of `node_keys`.
preload_keys : List (Text × Option Bytes) → Dict Entry → Dict Entry
preload_keys [] state = state
preload_keys ((node, key) ∷ rows) state =
    let e = or_default (lookup node state) no_entry in
    preload_keys rows (insert node (record e { public_key = key }) state)

-- The rows of `heartbeat_state`.
preload_states : List (Text × HbRow) → Dict Entry → Dict Entry
preload_states [] state = state
preload_states ((node, row) ∷ rows) state =
    let e = or_default (lookup node state) no_entry in
    let h = with_defaults row.last_i row.last_ts row.status in
    let filled = record e {
      last_i = some h.last_i;
      last_ts = some h.last_ts;
      status = some h.status;
    } in
    preload_states rows (insert node filled state)

-- The cache that the program starts with. `none` is an exception of the statement, which ends it.
unfoldable pub preload_cache :
    Option (List (Text × Option Bytes)) → Option (List (Text × HbRow)) → Result (Dict Entry)
unfolding preload_keys preload_states
preload_cache none states = raised db_error
preload_cache (some keys) none = raised db_error
preload_cache (some keys) (some states) = ok (preload_states states (preload_keys keys []))
