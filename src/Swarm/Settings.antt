-- ===== src/Swarm/Settings.antt =====
-- lib/global_config.py: the constants of the swarm.
use smartedge.Base.{ℕ, Text, codes}

-- '10.1.0.0'
abbrev pub this_swarm_subnet : ℕ
this_swarm_subnet = 0x0a010000

abbrev pub this_swarm_dhcp_start : ℕ
this_swarm_dhcp_start = 1

abbrev pub this_swarm_dhcp_end : ℕ
this_swarm_dhcp_end = 253

abbrev pub swarm_backbone_switch_port : ℕ
swarm_backbone_switch_port = 510

unfoldable pub default_backbone_device : Text
default_backbone_device = codes "smartedge-bb"

unfoldable pub coordinator_vip : Text
coordinator_vip = codes "10.1.255.254"

unfoldable pub coordinator_s0_ip : Text
coordinator_s0_ip = codes "10.0.255.254"

abbrev pub coordinator_tcp_port : ℕ
coordinator_tcp_port = 29997

-- '192.168.100.0'
abbrev pub backbone_subnet : ℕ
backbone_subnet = 0xc0a86400

unfoldable pub backbone_subnetmask : Text
backbone_subnetmask = codes "/24"
