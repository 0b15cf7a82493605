-- ===== src/Node/Communication.antt =====
-- `handle_communication` of node_manager/node_manager.py: the loop over the connections.
pub mod Laws
pub mod Off
pub mod Ends
use smartedge.Base.{ℕ, zero, suc, ◌-◌, Bool, true, false, Option, none, some, List, [], ◌∷◌, ◌++◌}
use smartedge.Base.{Text, codes, ◌=?◌, is_some, length, if◌then◌else◌}
use smartedge.Base.Bytes.{Bytes, starts_with, contains_text, strip, splitlines, words}
use smartedge.Base.Utf8.{decode}
use smartedge.Base.Dict.{lookup}
use smartedge.Base.Exec.{
  Exec, Result, ok, raised, value_error, index_error, attribute_error, return, require, lift,
  try_except, ◌>>=◌, ◌>>◌,
}
use smartedge.Node.Message.{Json, text, Message, truth, item}
use smartedge.Node.Service.{
  HbClient, answer_ok, sleep, Env, Node, Self, start_heartbeat_service,
  stop_heartbeat_service_if_running, run_program, set_access_point, emit,
}
use smartedge.Node.Install.{install_config_no_update_vxlan, install_swarm_node_config}

-- The rest of a replacement, with the characters of an occurrence still to be passed over.
replace_from : Text → Text → ℕ → Text → Text
unfolding starts_with
replace_from old new k [] = []
replace_from old new (suc k) (c ∷ cs) = replace_from old new k cs
replace_from old new zero (c ∷ cs) =
    let after = replace_from old new (length old - 1) cs in
    let rest = replace_from old new zero cs in
    if starts_with old (c ∷ cs) then new ++ after else c ∷ rest

-- `text.replace(old, new)` for an `old` that is not empty.
unfoldable pub replace : Text → Text → Text → Text
unfolding replace_from
replace old new t = replace_from old new zero t

-- `a or b`
abbrev or_else : Option Json → Json → Json
or_else o v = if truth o then (elim o [ none ↦ v | some j ↦ j ]) else v

-- The address of the access point in the network of the swarm. A number has no `startswith`.
unfoldable pub coord_ip : Json → Result Text
unfolding replace starts_with
coord_ip (text ip) =
    ok (if starts_with (codes "10.0.") ip then replace (codes "10.0.") (codes "10.1.") ip else ip)
coord_ip _ = raised attribute_error

unfoldable pub ap_ip_of : Message → Text → Json
ap_ip_of m peer =
    or_else (lookup (codes "AP_SWARM_IP") m) (or_else (lookup (codes "HB_DST_IP") m) (text peer))

abbrev client_of : Self → Text → HbClient
client_of self ip = record {
  client_id = self.self_uuid;
  receiver_ip = ip;
  receiver_port = 5008;
  pubkey_port = 5007;
  interval = codes "1.0";
}

-- Heartbeats are started or stopped, as the message says.
heartbeat_service : Env → Self → Text → Message → Exec Node (Unit {0})
unfolding lift ◌>>=◌
heartbeat_service env self peer m s =
    let started =
      (do ip ← lift (coord_ip (ap_ip_of m peer)); start_heartbeat_service env (client_of self ip))
        s in
    let stopped = stop_heartbeat_service_if_running env s in
    if truth (lookup (codes "heartbeat") m) then started else stopped

-- The body of the `try`; `handle_successful_join` only logs.
unfoldable pub set_config : Env → Self → Text → Message → Exec Node (Unit {0})
unfolding heartbeat_service ◌>>=◌
set_config env self peer m = do
  λ s.
      if is_some (lookup (codes "VXLAN_ID") m)
      then install_swarm_node_config env self m s
      else install_config_no_update_vxlan env m s
  heartbeat_service env self peer m

-- The first word of the last line that names the interface, or the empty text. A line without a
-- word raises.
ssid_of : Text → Text → List Text → Result Text
ssid_of ifname ssid [] = ok ssid
ssid_of ifname ssid (line ∷ lines) =
    let next : Result Text = elim (words line) [
      | [] ↦ raised index_error
      | w ∷ ws ↦ ssid_of ifname w lines
    ] in
    let rest = ssid_of ifname ssid lines in if contains_text ifname line then next else rest

unfoldable pub leave_swarm : Env → Self → Exec Node (Unit {0})
unfolding ssid_of lift ◌>>=◌
leave_swarm env self = do
  res ← run_program env (codes "nmcli connection show --active")
  ap_ssid ← lift (ssid_of self.default_ifname [] (splitlines (strip res.stdout)))
  run_program env (codes "nmcli connection down id " ++ ap_ssid)
  emit (sleep 1)
  run_program env (codes "nmcli connection up id " ++ ap_ssid)
  stop_heartbeat_service_if_running env

-- What a message does to the thread: it goes on, or it returns.
pub data Next : Type 0 where
  again returned : Next

unfoldable pub answered : Exec Node Next
unfolding return ◌>>=◌
answered = do emit answer_ok; return again

-- `config_data[STRs.TYPE.name] == name`
abbrev is_type : Json → Text → Bool
is_type (text t) name = t =? name
is_type _ name = false

unfoldable pub dispatch : Env → Self → Text → Message → Json → Exec Node Next
unfolding answered try_except return ◌>>=◌
dispatch env self peer m type s =
    let configured = try_except (set_config env self peer m >> answered) (λ _. return returned) s in
    let left = (leave_swarm env self >> answered) s in
    if is_type type (codes "SET_CONFIG")
    then configured
    else if is_type type (codes "go_away")
    then left
    else answered s

-- A connection of the peer, and what `recv(1024)` returned.
pub record Connection : Type 0 where
  pub peer : Text
  pub received : Bytes

-- One round of the loop. `PING_IN_PROGRESS` is never set.
unfoldable pub handle_connection : Env → Self → Connection → Exec Node Next
unfolding dispatch lift require ◌>>=◌
handle_connection env self c = do
  set_access_point c.peer
  run_program env (codes "ping " ++ c.peer)
  comm_buffer ← require value_error (decode c.received)
  config_data ← require value_error (env.loads comm_buffer)
  type ← lift (item (codes "TYPE") config_data)
  dispatch env self c.peer config_data type

unfoldable pub carry_on : Exec Node (Unit {0}) → Next → Exec Node (Unit {0})
unfolding return
carry_on rest again = rest
carry_on rest returned = return tt

-- The thread, as far as the connections go: a message that returns ends it, and so does an
-- exception.
unfoldable pub handle_communication : Env → Self → List Connection → Exec Node (Unit {0})
unfolding handle_connection carry_on return ◌>>=◌
handle_communication env self [] = return tt
handle_communication env self (c ∷ cs) = do
  next ← handle_connection env self c
  carry_on (handle_communication env self cs) next
