-- ===== src/AccessPoint/Connect.antt =====
-- `handle_new_connected_station` of ap_manager/ap_manager.py.
pub mod Laws
pub mod Table
use smartedge.Base.{ℕ, Bool, true, false, Option, none, some, List, [], ◌∷◌, ◌++◌, ◌||◌, ◌==◌}
use smartedge.Base.{Text, codes, ◌=?◌, drop, get_elem?, is_some, if◌then◌else◌}
use smartedge.Base.Bytes.{split, remove_char}
use smartedge.Base.Decimal.{dec}
use smartedge.Base.Dict.{Dict, lookup, insert}
use smartedge.Base.Exec.{
  Exec, ok, key_error, index_error, attribute_error, return, require, lift, ◌>>=◌, ◌>>◌,
}
use smartedge.Address.{int_to_mac, ip_address, assign_virtual_mac_and_ip_by_host_id}
use smartedge.Swarm.Io.{
  joined, SwarmRow, ArtRow, NodeConfig, Config, set_config, update_config, send_config, Env, Io,
  log,
}
use smartedge.Swarm.Database.{
  get_node_info_from_art, insert_into_art, insert_node_into_swarm_database,
  get_next_available_host_id,
}
use smartedge.Swarm.Switch.{
  Added, thrift_cli, tb_ipv4_lpm, host_key, port_add_command, port_remove_command,
  add_entry_to_bmv2, add_bmv2_swarm_broadcast_port,
}
use smartedge.Swarm.Settings.{
  this_swarm_subnet, this_swarm_dhcp_start, this_swarm_dhcp_end, swarm_backbone_switch_port,
  coordinator_vip, coordinator_s0_ip,
}
use smartedge.Swarm.Discovery
use smartedge.AccessPoint.Vxlan.{
  Station, Ap, Site, outside, cli, get_ip_from_arp_by_physical_mac, vxlan_name,
  create_vxlan_by_host_id, assign_vxlan,
}

-- `"SN"` and the last three bytes of the MAC address, without colons.
unfoldable pub node_uuid : Text → Text
node_uuid mac = codes "SN" ++ remove_char b':' (drop 9 mac)

-- `send_swarmNode_config`: whether the node answered "OK!".
unfoldable pub send_swarm_node_config : Env → Text → Config → Exec Ap Bool
send_swarm_node_config env ip config s =
    (ok (env.connect s.io.events ip config), record s { io = log s.io (send_config ip config) })

unfoldable pub connect_station : Text → Text → ℕ → Exec Ap (Unit {0})
connect_station mac vip id s = (
  ok tt,
  record s {
    connected_stations =
        insert mac (record { mac = mac; vip = vip; vxlan_id = id }) s.connected_stations;
  },
)

-- The tunnel of the station, attached to the switch.
unfoldable pub attach_tunnel : Env → Site → ℕ → Text → Exec Ap (Unit {0})
unfolding return ◌>>=◌
attach_tunnel env site id ip = do
  create_vxlan_by_host_id env site id ip
  cli env site.this_ap (port_remove_command (dec id))
  cli env site.this_ap (port_add_command (vxlan_name id) (dec id))
  return tt

local_entry : Env → Site → Text → ℕ → Exec Io Added
local_entry env site vip id =
    add_entry_to_bmv2 env thrift_cli site.this_ap tb_ipv4_lpm
      (codes "MyIngress.ac_ipv4_forward_mac_from_dst_ip") (host_key vip) (dec id)

-- The rule on another access point, by the backbone address from which the MAC address is derived.
remote_entry : Env → Text → Text → Text → Exec Io Added
unfolding lift ◌>>=◌
remote_entry env vip backbone_ip instance_ = do
  a ← lift (ip_address backbone_ip)
  add_entry_to_bmv2 env thrift_cli instance_ tb_ipv4_lpm (codes "MyIngress.ac_ipv4_forward_mac")
      (host_key vip) (dec swarm_backbone_switch_port ++ 32 ∷ int_to_mac a)

-- The loop over the other access points.
unfoldable pub remote_entries :
    Env → Site → Text → (Discovery.Ap → Text) → Dict Discovery.Ap → Exec Io (Unit {0})
unfolding remote_entry ◌>>=◌
remote_entries env site vip backbone_of [] s = (ok tt, s)
remote_entries env site vip backbone_of ((uuid, ap) ∷ aps) s =
    let rest = remote_entries env site vip backbone_of aps in
    let both = (remote_entry env vip (backbone_of ap) ap.cli_instance >> rest) s in
    if uuid =? site.self_uuid then rest s else both

-- The first three parts of `DEFAULT_SUBNET` with the last of the physical address.
unfoldable pub default_ip : Text → Option Text
default_ip ip = elim (get_elem? (split b'.' ip) 3) [
  | none ↦ none
  | some last ↦ some (codes "10.0.1." ++ last)
]

-- What follows the answer of a node that is in no swarm.
unfoldable pub enter_default :
    Env → Site → Dict Discovery.Ap → Text → ℕ → Text → Bool → Exec Ap (Unit {0})
unfolding connect_station local_entry outside ◌>>=◌
enter_default env site aps mac id vip false = λ s. (ok tt, s)
enter_default env site aps mac id vip true = do
  connect_station mac vip id
  outside (
      insert_into_art env (record {
        uuid = node_uuid mac;
        current_ap = site.self_uuid;
        current_swarm = 0;
        ap_port = id;
        virt_ip = vip;
      }))
  outside (local_entry env site vip id)
  outside (remote_entries env site vip (λ ap. ap.sebackbone_ip) aps)

abbrev pub default_config : Site → ℕ → Text → Text → Config
default_config site id vip vmac = set_config (record {
  veth1_vip = vip;
  veth1_vmac = vmac;
  vxlan_id = some id;
  swarm_id = 0;
  coordinator_vip = coordinator_s0_ip;
  ap_uuid = some site.self_uuid;
  heartbeat = none;
})

-- A station whose node is in no swarm, with its tunnel chosen.
unfoldable pub configure_default :
    Env → Site → Dict Discovery.Ap → Text → Text → Option ℕ → Exec Ap (Unit {0})
unfolding attach_tunnel default_ip send_swarm_node_config enter_default require lift ◌>>=◌
configure_default env site aps mac ip none = λ s. (ok tt, s)
configure_default env site aps mac ip (some id) = do
  attach_tunnel env site id ip
  vip ← require index_error (default_ip ip)
  a ← lift (ip_address vip)
  done ← send_swarm_node_config env ip (default_config site id vip (int_to_mac a))
  enter_default env site aps mac id vip done

abbrev backbone_of : Option Discovery.Ap → Option Text
backbone_of none = none
backbone_of (some ap) = some ap.sebackbone_ip

-- What follows the answer of a node that is in a swarm.
unfoldable pub enter_swarm :
    Env → Site → Dict Discovery.Ap → Text → ℕ → ArtRow → ℕ → Text → Text → Bool → Exec Ap (Unit {0})
unfolding connect_station local_entry outside require ◌>>=◌
enter_swarm env site aps mac id row host_id vip vmac false = λ s. (ok tt, s)
enter_swarm env site aps mac id row host_id vip vmac true = do
  connect_station mac vip id
  outside (
      insert_into_art env (record {
        uuid = node_uuid mac;
        current_ap = site.self_uuid;
        current_swarm = row.current_swarm;
        ap_port = id;
        virt_ip = vip;
      }))
  outside (
      insert_node_into_swarm_database env (record {
        uuid = node_uuid mac;
        virt_id = host_id;
        current_ap = site.self_uuid;
        status = joined;
        virt_ip = vip;
        virt_mac = vmac;
        phys_mac = mac;
      }))
  outside (add_bmv2_swarm_broadcast_port env id site.this_ap)
  outside (local_entry env site vip id)
  own ← require key_error (backbone_of (lookup site.self_uuid aps))
  outside (remote_entries env site vip (λ _. own) aps)

abbrev pub swarm_config : Site → ℕ → Text → Text → ℕ → Config
swarm_config site id vip vmac swarm = update_config (record {
  veth1_vip = vip;
  veth1_vmac = vmac;
  vxlan_id = some id;
  swarm_id = swarm;
  coordinator_vip = coordinator_vip;
  ap_uuid = some site.self_uuid;
  heartbeat = none;
})

unfoldable pub configure_swarm :
    Env → Site → Dict Discovery.Ap → Text → Text → ArtRow → Option ℕ → Exec Ap (Unit {0})
unfolding attach_tunnel send_swarm_node_config enter_swarm outside lift ◌>>=◌
configure_swarm env site aps mac ip row none = λ s. (ok tt, s)
configure_swarm env site aps mac ip row (some id) = do
  attach_tunnel env site id ip
  host_id ←
      outside
        (get_next_available_host_id env this_swarm_dhcp_start this_swarm_dhcp_end (node_uuid mac))
  (vmac, vip) ← lift (assign_virtual_mac_and_ip_by_host_id this_swarm_subnet host_id)
  done ← send_swarm_node_config env ip (swarm_config site id vip vmac row.current_swarm)
  enter_swarm env site aps mac id row host_id vip vmac done

-- `node_info == None or node_info.current_swarm == 0`
unfoldable pub configure :
    Env → Site → Dict Discovery.Ap → Text → Text → Option ArtRow → Exec Ap (Unit {0})
unfolding configure_default configure_swarm ◌>>=◌
configure env site aps mac ip none s =
    (assign_vxlan env ip >>= configure_default env site aps mac ip) s
configure env site aps mac ip (some row) s =
    if row.current_swarm == 0
    then (assign_vxlan env ip >>= configure_default env site aps mac ip) s
    else (assign_vxlan env ip >>= configure_swarm env site aps mac ip row) s

unfoldable pub addressed : Env → Site → Dict Discovery.Ap → Text → Option Text → Exec Ap (Unit {0})
unfolding configure outside require ◌>>=◌
addressed env site aps mac none = λ s. (ok tt, s)
addressed env site aps mac (some ip) = do
  result ← outside (get_node_info_from_art env (node_uuid mac))
  row ← require attribute_error result
  configure env site aps mac ip row

unfoldable pub handle_new_connected_station :
    Env → Site → Dict Discovery.Ap → Text → Exec Ap (Unit {0})
unfolding addressed ◌>>=◌
handle_new_connected_station env site aps mac s =
    if is_some (lookup mac s.connected_stations)
    then (ok tt, s)
    else (get_ip_from_arp_by_physical_mac env site mac >>= addressed env site aps mac) s
