-- ===== src/Coordinator/Onboard.antt =====
-- `onboard_node` and `offboard_node` of coordinator/coordinator.py.
pub mod Laws
pub mod Configs
use smartedge.Base.{ℕ, Bool, true, false, Option, none, some, List, [], ◌∷◌, ◌++◌, not}
use smartedge.Base.{Text, codes, ◌=?◌, if◌then◌else◌}
use smartedge.Base.Decimal.{dec}
use smartedge.Base.Dict.{Dict, lookup}
use smartedge.Base.Exec.{Exec, Result, ok, raised, key_error, return, require, lift, ◌>>=◌, ◌>>◌}
use smartedge.Address.{int_to_mac, ip_address, assign_virtual_mac_and_ip_by_host_id}
use smartedge.Swarm.Io.{
  joined, SwarmRow, Heartbeats, NodeConfig, Config, set_config, go_away, send_config, Env, Io, log,
}
use smartedge.Swarm.Database.{insert_node_into_swarm_database, update_art_with_node_info}
use smartedge.Swarm.Switch.{
  Added, thrift_cli, tb_ipv4_lpm, host_key, add_entry_to_bmv2, add_bmv2_swarm_broadcast_port,
}
use smartedge.Swarm.Settings.{this_swarm_subnet, swarm_backbone_switch_port, coordinator_vip}
use smartedge.Swarm.Discovery.{Ap}

-- The effects of a request, and `available_nodes`, to which the tasks append under the lock.
pub record Co : Type 0 where
  pub io : Io
  pub available_nodes : List Text

-- An action on the outside alone.
unfoldable pub outside : {A : Type 0} → Exec Io A → Exec Co A
outside m s = let (r, t) = m s.io in (r, record s { io = t })

unfoldable pub append_node : Text → Exec Co (Unit {0})
append_node uuid s = (ok tt, record s { available_nodes = s.available_nodes ++ uuid ∷ [] })

-- Connecting and sending over TCP; `false` is an exception. No answer is read.
unfoldable pub deliver_config : Env → Text → Config → Exec Co Bool
deliver_config env ip config s =
    (ok (env.connect s.io.events ip config), record s { io = log s.io (send_config ip config) })

-- A node as a task is given it.
pub record Task : Type 0 where
  pub host_id : ℕ
  pub uuid : Text
  pub ap_id : Text
  pub ip : Text
  pub ap_port : ℕ

unfoldable pub offboard_node : Env → Task → Exec Co (Unit {0})
unfolding deliver_config append_node ◌>>=◌
offboard_node env t = do
  done ← deliver_config env t.ip go_away
  λ s. if done then append_node t.uuid s else (ok tt, s)

-- The configuration of a node; the parameters are sent only where heartbeats are enabled.
unfoldable pub node_config : Text → Text → Heartbeats → Config
node_config vip vmac hb = set_config (record {
  veth1_vip = vip;
  veth1_vmac = vmac;
  vxlan_id = none;
  swarm_id = 1;
  coordinator_vip = coordinator_vip;
  ap_uuid = none;
  heartbeat = some (
      if hb.enabled
      then hb
      else record { enabled = false; hb_length = none; hb_window = none; hb_interval = none });
})

-- The rule on one of the other access points.
replicate_entry : Env → Text → Ap → Exec Io Added
unfolding lift ◌>>=◌
replicate_entry env vip ap = do
  a ← lift (ip_address ap.sebackbone_ip)
  add_entry_to_bmv2 env thrift_cli ap.cli_instance tb_ipv4_lpm
      (codes "MyIngress.ac_ipv4_forward_mac") (host_key vip)
      (dec swarm_backbone_switch_port ++ 32 ∷ int_to_mac a)

-- The loop over `SE_NODE.get_aps_dict().items()`.
unfoldable pub replicate_entries : Env → Text → Text → Dict Ap → Exec Io (Unit {0})
unfolding replicate_entry ◌>>=◌
replicate_entries env ap_id vip [] s = (ok tt, s)
replicate_entries env ap_id vip ((uuid, ap) ∷ aps) s =
    let rest = replicate_entries env ap_id vip aps in
    let both = (replicate_entry env vip ap >> rest) s in if uuid =? ap_id then rest s else both

-- What follows the delivery: the tables of the database, and the rules on the switches.
unfoldable pub install_node : Env → Dict Ap → Task → Text → Text → Text → Exec Io (Unit {0})
unfolding replicate_entries ◌>>=◌
install_node env aps t instance_ vmac vip = do
  insert_node_into_swarm_database env (record {
    uuid = t.uuid;
    virt_id = t.host_id;
    current_ap = t.ap_id;
    status = joined;
    virt_ip = vip;
    virt_mac = vmac;
    phys_mac = [];
  })
  update_art_with_node_info env t.uuid t.ap_id 1 vip
  add_bmv2_swarm_broadcast_port env t.ap_port instance_
  add_entry_to_bmv2 env thrift_cli instance_ tb_ipv4_lpm
      (codes "MyIngress.ac_ipv4_forward_mac_from_dst_ip") (host_key vip) (dec t.ap_port)
  replicate_entries env t.ap_id vip aps

abbrev instance_of : Option Ap → Option Text
instance_of none = none
instance_of (some ap) = some ap.cli_instance

-- A node that could not be reached gets no address and no rule.
pub finish : Env → Dict Ap → Task → Text → Text → Text → Bool → Exec Co (Unit {0})
unfolding append_node outside install_node ◌>>=◌
finish env aps t instance_ vmac vip false = λ s. (ok tt, s)
finish env aps t instance_ vmac vip true = do
  append_node t.uuid
  outside (install_node env aps t instance_ vmac vip)

unfoldable pub onboard_node : Env → Dict Ap → Heartbeats → Task → Exec Co (Unit {0})
unfolding deliver_config finish require lift ◌>>=◌
onboard_node env aps hb t = do
  instance_ ← require key_error (instance_of (lookup t.ap_id aps))
  (vmac, vip) ← lift (assign_virtual_mac_and_ip_by_host_id this_swarm_subnet t.host_id)
  done ← deliver_config env t.ip (node_config vip vmac hb)
  finish env aps t instance_ vmac vip done
