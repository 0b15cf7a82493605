-- ===== src/Node/Service.antt =====
-- `start_heartbeat_service` and `stop_heartbeat_service_if_running` of
-- node_manager/node_manager.py, and the state of the node. The shell, the process of the heartbeat
-- client and the JSON parser are answers of the environment.
use smartedge.Base.{ℕ, Bool, false, Option, none, some, List, [], ◌∷◌, ◌++◌}
use smartedge.Base.{Text, if◌then◌else◌}
use smartedge.Base.Exec.{Exec, ok, raised, os_error}
use smartedge.Swarm.Io.{Process}
use smartedge.Node.Message.{Message}

-- The arguments of a heartbeat client.
pub record HbClient : Type 0 where
  pub client_id : Text
  pub receiver_ip : Text
  pub receiver_port : ℕ
  pub pubkey_port : ℕ
  pub interval : Text

pub data Event : Type 0 where
  shell command : Text → Event
  start : HbClient → Event
  terminate answer_ok : Event
  sleep : ℕ → Event

-- The answers, from the events before.
pub record Env : Type 0 where
  -- A command of the shell prints; a program that is run without it may be missing.
  pub sh : List Event → Text → Process
  pub program : List Event → Text → Option Process
  -- The script exists, and `Popen` succeeds.
  pub startable : List Event → Bool
  -- `hb_process.poll() is None`
  pub polls_none : List Event → HbClient → Bool
  pub loads : Text → Option Message

pub record Node : Type 0 where
  pub hb_process : Option HbClient
  pub access_point_ip : Text
  pub events : List Event

-- The names that are fixed when the node starts.
pub record Self : Type 0 where
  pub self_uuid : Text
  pub default_ifname : Text

abbrev pub log : Node → Event → Node
log s e = record s { events = s.events ++ e ∷ [] }

unfoldable pub is_running : Env → Node → Bool
is_running env s = elim s.hb_process [ none ↦ false | some p ↦ env.polls_none s.events p ]

-- A failure to start is logged.
unfoldable pub start_heartbeat_service : Env → HbClient → Exec Node (Unit {0})
unfolding is_running
start_heartbeat_service env p s =
    if is_running env s
    then (ok tt, s)
    else if env.startable s.events
    then (ok tt, record (log s (start p)) { hb_process = some p })
    else (ok tt, s)

-- A failure of `terminate` or `wait` is logged, and the process is forgotten all the same.
unfoldable pub stop_heartbeat_service_if_running : Env → Exec Node (Unit {0})
unfolding is_running
stop_heartbeat_service_if_running env s =
    if is_running env s
    then (ok tt, record (log s terminate) { hb_process = none })
    else (ok tt, record s { hb_process = none })

-- `subprocess.run(command, shell=True)`
unfoldable pub run_shell : Env → Text → Exec Node Process
run_shell env c s = (ok (env.sh s.events c), log s (shell c))

-- `subprocess.run(command.split())` and `subprocess.Popen(command.split())`
unfoldable pub run_program : Env → Text → Exec Node Process
run_program env c s = elim (env.program s.events c) [
  | none ↦ (raised os_error, s)
  | some p ↦ (ok p, log s (command c))
]

unfoldable pub set_access_point : Text → Exec Node (Unit {0})
set_access_point ip s = (ok tt, record s { access_point_ip = ip })

unfoldable pub emit : Event → Exec Node (Unit {0})
emit e s = (ok tt, log s e)
