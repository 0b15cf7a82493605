-- ===== src/AccessPoint/Monitor.antt =====
-- `initialize_program` from the switch on, and `monitor_stations`, of ap_manager/ap_manager.py.
use smartedge.Base.{none, some, List, [], ◌∷◌, ◌++◌}
use smartedge.Base.{Text, codes, ◌=?◌, get_elem?, if◌then◌else◌}
use smartedge.Base.Bytes.{strip, words}
use smartedge.Base.Decimal.{dec}
use smartedge.Base.Dict.{Dict}
use smartedge.Base.Exec.{Exec, ok, index_error, return, require, lift, ◌>>=◌, ◌>>◌}
use smartedge.Address.{int_to_mac, ip_address}
use smartedge.Swarm.Io.{Env, Io, run_cli_command}
use smartedge.Swarm.Switch.{
  Added, thrift_cli, tb_ipv4_lpm, host_key, port_add_command, port_remove_command,
  add_entry_to_bmv2,
}
use smartedge.Swarm.Settings.{swarm_backbone_switch_port, coordinator_vip, coordinator_s0_ip}
use smartedge.Swarm.Discovery
use smartedge.AccessPoint.Vxlan.{Ap, Site}
use smartedge.AccessPoint.Connect.{handle_new_connected_station}
use smartedge.AccessPoint.Disconnect.{handle_disconnected_station}

-- The commands in their order, whatever they answer.
run_commands : Env → Text → List Text → Exec Io (Unit {0})
unfolding return ◌>>=◌
run_commands env instance_ [] = return tt
run_commands env instance_ (c ∷ cs) = do
  run_cli_command env c instance_
  run_commands env instance_ cs

-- A route to an address of the coordinator.
coordinator_entry : Env → Text → Text → Text → Exec Io Added
coordinator_entry env instance_ vmac ip =
    add_entry_to_bmv2 env thrift_cli instance_ tb_ipv4_lpm (codes "MyIngress.ac_ipv4_forward_mac")
      (host_key ip) (dec swarm_backbone_switch_port ++ 32 ∷ vmac)

abbrev backbone_commands : Text → List Text
backbone_commands device =
    codes "reset_state"
    ∷ port_remove_command (dec swarm_backbone_switch_port)
    ∷ port_add_command device (dec swarm_backbone_switch_port)
    ∷ []

abbrev broadcast_commands : List Text
broadcast_commands =
    codes "mc_mgrp_create 1"
    ∷ (codes "mc_node_create 0 " ++ dec swarm_backbone_switch_port)
    ∷ codes "mc_node_associate 1 0"
    ∷ codes
        "table_add MyIngress.tb_l2_forward ac_l2_broadcast 01:00:00:00:00:00&&&0x010000000000 => 1 100 "
    ∷ []

-- The switch starts from its empty state, with the backbone device attached.
unfoldable pub initialize_program : Env → Site → Text → Exec Io (Unit {0})
unfolding run_commands coordinator_entry lift ◌>>=◌
initialize_program env site device = do
  run_commands env site.this_ap (backbone_commands device)
  a ← lift (ip_address coordinator_vip)
  coordinator_entry env site.this_ap (int_to_mac a) coordinator_vip
  coordinator_entry env site.this_ap (int_to_mac a) coordinator_s0_ip
  run_commands env site.this_ap broadcast_commands

-- One line of `iw event`, by its second and fourth word.
handle_line : Env → Site → Dict Discovery.Ap → List Text → Exec Ap (Unit {0})
unfolding handle_new_connected_station handle_disconnected_station require ◌>>=◌
handle_line env site aps ws s = elim (get_elem? ws 1) [
  | none ↦ require index_error none s
  | some action ↦
      if action =? codes "new"
      then (require index_error (get_elem? ws 3) >>= handle_new_connected_station env site aps) s
      else if action =? codes "del"
      then (require index_error (get_elem? ws 3) >>= handle_disconnected_station env site aps) s
      else (ok tt, s)
]

-- The lines, each with the access points that are known when it is read. A line that repeats the
-- one before it is skipped; an exception ends the loop.
unfoldable pub monitor_lines :
    Env → Site → Text → List (Text × Dict Discovery.Ap) → Exec Ap (Unit {0})
unfolding handle_line strip words ◌>>=◌
monitor_lines env site previous_line [] s = (ok tt, s)
monitor_lines env site previous_line ((line, aps) ∷ lines) s =
    let skipped = monitor_lines env site previous_line lines s in
    let handled = (handle_line env site aps (words line) >> monitor_lines env site line lines) s in
    if strip line =? strip previous_line then skipped else handled

unfoldable pub monitor_stations : Env → Site → List (Text × Dict Discovery.Ap) → Exec Ap (Unit {0})
unfolding monitor_lines
monitor_stations env site = monitor_lines env site []
