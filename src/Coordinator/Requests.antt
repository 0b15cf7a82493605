-- ===== src/Coordinator/Requests.antt =====
-- `handle_ac_communication` of coordinator/coordinator.py, and the loop that accepts connections.
-- The tasks of one request never wait, since the lock is free and the sockets block: each runs to
-- its end, in the order of their creation, before the gathering goes on.
pub mod Laws
pub mod Leave
pub mod Join
pub mod Distinct
pub mod Addresses
use smartedge.Base.{ℕ, Bool, true, false, Option, none, some, List, [], ◌∷◌, ◌++◌}
use smartedge.Base.{Text, codes, ◌==◌, ◌=?◌, or_default, if◌then◌else◌}
use smartedge.Base.Dict.{Dict}
use smartedge.Base.Exec.{
  Exc, Exec, Result, ok, raised, key_error, type_error, index_error, value_error, return, require,
  lift, try_except, ◌>>=◌, ◌>>◌,
}
use smartedge.Swarm.Io.{ArtRow, Heartbeats, select_arts, reply_nodes, Event, Env, Io, log}
use smartedge.Swarm.Database.{execute_read, batch_get_available_host_id}
use smartedge.Swarm.Settings.{this_swarm_dhcp_start, this_swarm_dhcp_end}
use smartedge.Swarm.Discovery.{Ap}
use smartedge.Coordinator.Onboard.{Co, Task, outside, offboard_node, onboard_node}

-- The keys of a request, `none` where one is missing.
pub record Request : Type 0 where
  pub kind : Option Text
  pub node_ids : Option (List Text)
  pub heartbeat : Option Bool
  pub hb_length : Option ℕ
  pub hb_window : Option ℕ
  pub hb_interval : Option ℕ

-- What was received: nothing, a text that is no JSON object, or a request.
pub data Incoming : Type 0 where
  closed unreadable : Incoming
  request : Request → Incoming

-- The rows of nodes that are in no swarm.
unfoldable pub available : List ArtRow → List ArtRow
available [] = []
available (row ∷ rows) =
    let rest = available rows in if row.current_swarm == 0 then row ∷ rest else rest

abbrev pub task_of : ArtRow → ℕ → Task
task_of row host_id = record {
  host_id = host_id;
  uuid = row.uuid;
  ap_id = row.current_ap;
  ip = row.virt_ip;
  ap_port = row.ap_port;
}

abbrev pub cons_task : Task → Option (List Task) → Option (List Task)
cons_task t none = none
cons_task t (some ts) = some (t ∷ ts)

-- The loop that creates the tasks. `none` is the `IndexError` of `available_host_ids[i]`, at which
-- no task has begun; the tasks are then cancelled.
unfoldable pub create_tasks : List ArtRow → List ℕ → Option (List Task)
create_tasks [] ids = some []
create_tasks (row ∷ rows) [] = none
create_tasks (row ∷ rows) (id ∷ ids) = cons_task (task_of row id) (create_tasks rows ids)

abbrev pub later : Result (Unit {0}) → Result (Unit {0}) × Co → Result (Unit {0}) × Co
later (ok u) r = r
later (raised e) (_, s) = (raised e, s)

-- `asyncio.gather`: every task runs, and the first exception is raised after them.
unfoldable pub gather : (Task → Exec Co (Unit {0})) → List Task → Exec Co (Unit {0})
gather run [] s = (ok tt, s)
gather run (t ∷ ts) s = let (r, s') = run t s in later r (gather run ts s')

unfoldable pub reply : Exec Co (Unit {0})
reply s = (ok tt, record s { io = log s.io (reply_nodes s.available_nodes) })

-- From the rows on: no row ends the request; else each node is given a host identifier.
unfoldable pub serve : Env → (Task → Exec Co (Unit {0})) → List ArtRow → Exec Co (Unit {0})
unfolding outside create_tasks gather reply require ◌>>=◌
serve env run [] = λ s. (ok tt, s)
serve env run (row ∷ rows) = do
  ids ← outside (batch_get_available_host_id env this_swarm_dhcp_start this_swarm_dhcp_end)
  tasks ← require index_error (create_tasks (row ∷ rows) ids)
  gather run tasks
  reply

-- The rows of the nodes that a request names; the -1 of a failed statement cannot be iterated.
unfoldable pub requested_rows : Env → Request → Exec Co (List ArtRow)
unfolding outside execute_read require ◌>>=◌
requested_rows env r = do
  ids ← require key_error r.node_ids
  rows ← outside (execute_read (λ before. env.art_rows before ids) (select_arts ids))
  require type_error rows

unfoldable pub heartbeats_of : Request → Heartbeats
heartbeats_of r = record {
  enabled = or_default r.heartbeat false;
  hb_length = r.hb_length;
  hb_window = r.hb_window;
  hb_interval = r.hb_interval;
}

unfoldable pub join_nodes : Env → Dict Ap → Request → Exec Co (Unit {0})
unfolding requested_rows serve onboard_node heartbeats_of available ◌>>=◌
join_nodes env aps r = do
  rows ← requested_rows env r
  serve env (onboard_node env aps (heartbeats_of r)) (available rows)

unfoldable pub leave_nodes : Env → Request → Exec Co (Unit {0})
unfolding requested_rows serve offboard_node ◌>>=◌
leave_nodes env r = do rows ← requested_rows env r; serve env (offboard_node env) rows

unfoldable pub dispatch : Env → Dict Ap → Request → Option Text → Exec Co (Unit {0})
unfolding join_nodes leave_nodes
dispatch env aps r none s = (raised key_error, s)
dispatch env aps r (some kind) s =
    if kind =? codes "njl"
    then join_nodes env aps r s
    else if kind =? codes "nll"
    then leave_nodes env r s
    else (ok tt, s)

-- Every exception is logged.
unfoldable pub handle_ac_communication : Env → Dict Ap → Incoming → Exec Co (Unit {0})
unfolding dispatch try_except return
handle_ac_communication env aps closed = return tt
handle_ac_communication env aps unreadable = return tt
handle_ac_communication env aps (request r) =
    try_except (dispatch env aps r r.kind) (λ _. return tt)

-- The connections that `adaptive_coordinator_handler` accepts, one after the other, each with its
-- own list of nodes.
unfoldable pub adaptive_coordinator_handler : Env → Dict Ap → List Incoming → Io → Io
unfolding handle_ac_communication
adaptive_coordinator_handler env aps [] io = io
adaptive_coordinator_handler env aps (m ∷ ms) io =
    adaptive_coordinator_handler env aps ms
      (handle_ac_communication env aps m (record { io = io; available_nodes = [] })).1.io
