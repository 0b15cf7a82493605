-- ===== src/AccessPoint/Disconnect.antt =====
-- `handle_disconnected_station` of ap_manager/ap_manager.py.
pub mod Laws
pub mod Moved
pub mod Removed
use smartedge.Base.{
  ℕ, zero, suc, Bool, true, false, not, Option, none, some, List, [], ◌∷◌, ◌++◌, ◌||◌,
}
use smartedge.Base.{Text, codes, ◌=?◌, is_some, if◌then◌else◌}
use smartedge.Base.Bytes.{contains_text}
use smartedge.Base.Decimal.{dec}
use smartedge.Base.Dict.{Dict, lookup, erase}
use smartedge.Base.Exec.{
  Exec, ok, raised, key_error, attribute_error, type_error, return, require, try_except, ◌>>=◌,
  ◌>>◌,
}
use smartedge.Swarm.Io.{ArtRow, Env, Io}
use smartedge.Swarm.Database.{get_node_info_from_art, delete_node_from_art}
use smartedge.Swarm.Switch.{
  thrift_cli, tb_ipv4_lpm, host_key, port_remove_command, delete_forwarding_entry_from_bmv2,
  remove_bmv2_swarm_broadcast_port,
}
use smartedge.Swarm.Discovery
use smartedge.AccessPoint.Vxlan.{
  Station, Ap, Site, outside, shell, cli, get_ip_from_arp_by_physical_mac, delete_vxlan_by_host_id,
}
use smartedge.AccessPoint.Connect.{node_uuid}

abbrev dump_command : Text
dump_command = codes "iw wlan0 station dump | grep Station | awk '{print $2}'"

abbrev ping_command : Option Text → Text
ping_command none = codes "ping -c 1 None"
ping_command (some ip) = codes "ping -c 1 " ++ ip

ping : Env → Site → Text → Exec Ap (Unit {0})
unfolding get_ip_from_arp_by_physical_mac shell return ◌>>=◌
ping env site mac = do
  ip ← get_ip_from_arp_by_physical_mac env site mac
  shell env (ping_command ip)
  return tt

-- The rounds that are left of the wait: whether the station came back.
unfoldable pub wait_rounds : Env → Site → Text → ℕ → Exec Ap Bool
unfolding shell ping contains_text ◌>>=◌
wait_rounds env site mac zero s = (ok false, s)
wait_rounds env site mac (suc k) s =
    let p = env.run s.io.events dump_command in
    let t = (shell env dump_command s).1 in
    let again = (ping env site mac >> wait_rounds env site mac k) t in
    if contains_text mac p.stdout then (ok true, t) else again

-- The row of the node; the -1 of a failed statement has no rows.
pub node_row : Env → Text → Exec Ap (Option ArtRow)
unfolding outside require ◌>>=◌
node_row env mac = do
  result ← outside (get_node_info_from_art env (node_uuid mac))
  require attribute_error result

-- Whether the row, if there is one, is of another access point.
abbrev elsewhere : Site → Option ArtRow → Bool
elsewhere site none = false
elsewhere site (some row) = not (row.current_ap =? site.self_uuid)

-- The entry of the station on every access point.
unfoldable pub delete_entries : Env → Text → Dict Discovery.Ap → Exec Io (Unit {0})
unfolding return ◌>>=◌
delete_entries env vip [] = return tt
delete_entries env vip ((uuid, ap) ∷ aps) = do
  delete_forwarding_entry_from_bmv2 env thrift_cli ap.cli_instance tb_ipv4_lpm (host_key vip)
  delete_entries env vip aps

unfoldable pub forget_station : Text → Exec Ap (Unit {0})
forget_station mac s = (ok tt, record s { connected_stations = erase mac s.connected_stations })

-- The station is gone: its entries, its port, its rows and its tunnel.
unfoldable pub remove_station : Env → Site → Dict Discovery.Ap → Text → ArtRow → Exec Ap (Unit {0})
unfolding forget_station delete_entries outside require ◌>>=◌
remove_station env site aps mac row s =
    (do
      station ← require key_error (lookup mac s.connected_stations)
      forget_station mac
      outside (delete_entries env station.vip aps)
      outside (remove_bmv2_swarm_broadcast_port env row.ap_port site.this_ap)
      cli env site.this_ap (port_remove_command (dec station.vxlan_id))
      outside (delete_node_from_art env (node_uuid mac))
      delete_vxlan_by_host_id env station.vxlan_id)
      s

-- After the wait. Where the row is missing, `node_info.ap_port` raises; where the station moved, the
-- call of `remove_bmv2_swarm_broadcast_port` raises, which has no parameter `ap_ip`.
pub still_away : Env → Site → Dict Discovery.Ap → Text → Option ArtRow → Exec Ap (Unit {0})
unfolding remove_station
still_away env site aps mac none s = (raised attribute_error, s)
still_away env site aps mac (some row) s =
    if elsewhere site (some row)
    then (raised type_error, s)
    else remove_station env site aps mac row s

abbrev unless_back : Bool → Exec Ap (Unit {0}) → Exec Ap (Unit {0})
unless_back true m s = (ok tt, s)
unless_back false m s = m s

pub wait_and_remove : Env → Site → Dict Discovery.Ap → Text → Exec Ap (Unit {0})
unfolding wait_rounds node_row still_away ◌>>=◌
wait_and_remove env site aps mac s =
    (do
      back ← wait_rounds env site mac (env.rounds s.io.events)
      unless_back back (node_row env mac >>= still_away env site aps mac))
      s

pub first_look : Env → Site → Dict Discovery.Ap → Text → Option ArtRow → Exec Ap (Unit {0})
unfolding wait_and_remove
first_look env site aps mac row s =
    if not (is_some (lookup mac s.connected_stations)) || elsewhere site row
    then (ok tt, s)
    else wait_and_remove env site aps mac s

-- Every exception is logged.
unfoldable pub handle_disconnected_station :
    Env → Site → Dict Discovery.Ap → Text → Exec Ap (Unit {0})
unfolding node_row first_look try_except return ◌>>=◌
handle_disconnected_station env site aps mac =
    try_except (node_row env mac >>= first_look env site aps mac) (λ _. return tt)
