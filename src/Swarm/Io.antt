-- ===== src/Swarm/Io.antt =====
-- What the coordinator and the access points do to the outside, and its answers. Cassandra, the
-- command line of BMv2, the shell and the network are answers of an environment, which may depend
-- on all that happened before.
pub mod Quiet
use smartedge.Base.{ℕ, zero, suc, ◌-◌, Bool, Option, List, [], ◌∷◌, ◌++◌}
use smartedge.Base.{Text, if◌then◌else◌, length}
use smartedge.Base.Exec.{Exec, ok}

-- `SWARM_STATUS` of lib/db/defines.py.
pub data SwarmStatus : Type 0 where
  joined pending left disconnected : SwarmStatus

-- A row of `Swarm_Table`.
pub record SwarmRow : Type 0 where
  pub uuid : Text
  pub virt_id : ℕ
  pub current_ap : Text
  pub status : SwarmStatus
  pub virt_ip : Text
  pub virt_mac : Text
  pub phys_mac : Text

-- A row of `ART`.
pub record ArtRow : Type 0 where
  pub uuid : Text
  pub current_ap : Text
  pub current_swarm : ℕ
  pub ap_port : ℕ
  pub virt_ip : Text

-- The statements of lib/database_comms.py and of the coordinator.
pub data Query : Type 0 where
  insert_swarm : SwarmRow → Query
  insert_art : ArtRow → Query
  update_art : Text → Text → ℕ → Text → Query
  update_status : Text → SwarmStatus → Query
  delete_art delete_swarm : Text → Query
  select_art : Text → Query
  select_arts : List Text → Query
  select_id_of : Text → Query
  select_ids : Query

-- The keys about heartbeats in a configuration.
pub record Heartbeats : Type 0 where
  pub enabled : Bool
  pub hb_length : Option ℕ
  pub hb_window : Option ℕ
  pub hb_interval : Option ℕ

-- The keys of a configuration, but for the TCP ports, which are constants.
pub record NodeConfig : Type 0 where
  pub veth1_vip : Text
  pub veth1_vmac : Text
  pub vxlan_id : Option ℕ
  pub swarm_id : ℕ
  pub coordinator_vip : Text
  pub ap_uuid : Option Text
  pub heartbeat : Option Heartbeats

-- What a node is sent, by the key `TYPE`.
pub data Config : Type 0 where
  set_config update_config : NodeConfig → Config
  go_away : Config

pub data Event : Type 0 where
  query : Query → Event
  notify_gui : Text → Event
  cli : Text → Text → Event
  shell : Text → Event
  send_config : Text → Config → Event
  reply_nodes : List Text → Event

-- What a command of the switch printed, and whether it raised.
pub record Printed : Type 0 where
  pub output : Text
  pub raises : Bool

-- The output of a shell command.
pub record Process : Type 0 where
  pub stdout : Text
  pub stderr : Text

-- The answers, from the events before. A `none` is an exception of the database, a `none` inside
-- it a missing row.
pub record Env : Type 0 where
  pub write : List Event → Query → Bool
  pub art_row : List Event → Text → Option (Option ArtRow)
  pub art_rows : List Event → List Text → Option (List ArtRow)
  pub id_of : List Event → Text → Option (Option ℕ)
  pub ids : List Event → Option (List ℕ)
  pub onecmd : List Event → Text → Text → Printed
  pub run : List Event → Text → Process
  pub connect : List Event → Text → Config → Bool
  -- How often a loop that is bounded in time goes round.
  pub rounds : List Event → ℕ

-- The events so far, and the buffer `output_capture` of lib/bmv2_thrift_lib.py with its position.
pub record Io : Type 0 where
  pub events : List Event
  pub captured : Text
  pub position : ℕ

abbrev pub log : Io → Event → Io
log s e = record s { events = s.events ++ e ∷ [] }

abbrev nulls : ℕ → Text
nulls zero = []
nulls (suc k) = 0 ∷ nulls k

-- `StringIO.write`: a position past the end is reached by null characters.
abbrev written : Io → Text → Io
written s t =
    let all = s.captured ++ (nulls (s.position - length s.captured) ++ t) in
    record s { captured = all; position = length all }

-- `run_cli_command`. After an exception the buffer keeps what was printed; after a success it is
-- emptied, and its position stays.
unfoldable pub run_cli_command : Env → Text → Text → Exec Io Text
run_cli_command env command instance_ s =
    let printed = env.onecmd s.events instance_ command in
    let t = written (log s (cli instance_ command)) printed.output in
    if printed.raises then (ok [], t) else (ok t.captured, record t { captured = [] })

unfoldable pub notify_gui_backend : Text → Exec Io (Unit {0})
notify_gui_backend table s = (ok tt, log s (notify_gui table))

-- `subprocess.run`
unfoldable pub run_shell : Env → Text → Exec Io Process
run_shell env command s = (ok (env.run s.events command), log s (shell command))
