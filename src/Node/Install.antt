-- ===== src/Node/Install.antt =====
-- `install_config_no_update_vxlan` and `install_swarmNode_config` of node_manager/node_manager.py.
pub mod Laws
use smartedge.Base.{List, [], ◌∷◌, ◌++◌}
use smartedge.Base.{Text, codes}
use smartedge.Base.Bytes.{strip}
use smartedge.Base.Exec.{Exec, return, lift, gets, ◌>>=◌, ◌>>◌}
use smartedge.Node.Message.{Json, Message, shown, item}
use smartedge.Node.Service.{Env, Node, Self, run_shell, run_program}

-- The loops over a list of commands. What they print decides nothing.
unfoldable pub run_shells : Env → List Text → Exec Node (Unit {0})
unfolding return ◌>>=◌
run_shells env [] = return tt
run_shells env (c ∷ cs) = do run_shell env c; run_shells env cs

unfoldable pub run_programs : Env → List Text → Exec Node (Unit {0})
unfolding return ◌>>=◌
run_programs env [] = return tt
run_programs env (c ∷ cs) = do run_program env c; run_programs env cs

-- The commands on `veth1`, with which both lists end.
unfoldable pub veth1_commands : Text → Text → List Text
veth1_commands vip vmac =
    (codes "ip link set veth1 address " ++ vmac)
    ∷ (codes "ifconfig veth1 " ++ (vip ++ codes " netmask 255.255.0.0 up"))
    ∷ codes "ip link set veth0 up"
    ∷ codes "ip link set dev veth1 mtu 1400"
    ∷ codes "ethtool --offload veth1 rx off tx off"
    ∷ []

unfoldable pub install_config_no_update_vxlan : Env → Message → Exec Node (Unit {0})
unfolding lift ◌>>=◌
install_config_no_update_vxlan env m = do
  vip ← lift (item (codes "VETH1_VIP") m)
  vmac ← lift (item (codes "VETH1_VMAC") m)
  run_shells env (veth1_commands (shown vip) (shown vmac))

unfoldable pub tunnel_commands : Self → Text → Text → Text → Text → List Text
tunnel_commands self ap_ip vxlan_id vip vmac =
    codes "ip link del se_vxlan"
    ∷ codes "ip link del veth1"
    ∷ (codes "ip link add se_vxlan type vxlan id "
        ++ (vxlan_id
            ++ (codes " dev "
                ++ (self.default_ifname
                    ++ (codes " remote " ++ (ap_ip ++ codes " dstport 4789"))))))
    ∷ codes "ip link set dev se_vxlan up"
    ∷ codes "ip link add veth0 type veth peer name veth1"
    ∷ veth1_commands vip vmac

abbrev route_command : Text → Text → Text
route_command from to =
    codes "nikss-ctl table add pipe 0 ingress_route action id 2 key "
    ++ (from ++ (codes " data " ++ to))

-- The two interfaces, each of which forwards to the other.
unfoldable pub pipeline_commands : Text → Text → List Text
pipeline_commands if1 if2 =
    codes "nikss-ctl pipeline unload id 0"
    ∷ codes "nikss-ctl pipeline load id 0 ./node_manager/utils/nikss.o"
    ∷ codes "nikss-ctl add-port pipe 0 dev veth0"
    ∷ codes "nikss-ctl add-port pipe 0 dev se_vxlan"
    ∷ route_command if1 if2
    ∷ route_command if2 if1
    ∷ []

unfoldable pub install_swarm_node_config : Env → Self → Message → Exec Node (Unit {0})
unfolding lift gets ◌>>=◌
install_swarm_node_config env self m = do
  vxlan_id ← lift (item (codes "VXLAN_ID") m)
  vip ← lift (item (codes "VETH1_VIP") m)
  vmac ← lift (item (codes "VETH1_VMAC") m)
  ap_ip ← gets (λ s. s.access_point_ip)
  run_shells env (tunnel_commands self ap_ip (shown vxlan_id) (shown vip) (shown vmac))
  if1_index ← run_program env (codes "cat /sys/class/net/veth0/ifindex")
  if2_index ← run_program env (codes "cat /sys/class/net/se_vxlan/ifindex")
  run_programs env (pipeline_commands (strip if1_index.stdout) (strip if2_index.stdout))
