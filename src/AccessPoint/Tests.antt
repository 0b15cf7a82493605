-- ===== src/AccessPoint/Tests.antt =====
-- Stations at an access point.
use smartedge.Base.{ℕ, ◌+◌, ◌↔◌, ◌≡◌, refl, true, false, Option, none, some, List, [], ◌∷◌}
use smartedge.Base.{Text, codes, ◌=?◌, is_some, elem}
use smartedge.Base.Dict.{lookup, insert}
use smartedge.Base.Exec.{Result, require, lift, ◌>>=◌, ok, raised, value_error}
use smartedge.Swarm.Io.{ArtRow, Event, Env}
use smartedge.Base.Bytes.{words, contains_text, starts_with, splitlines, strip, split}
use smartedge.Address.{ip_address, int_to_mac, ip_text, assign_virtual_mac_and_ip_by_host_id}
use smartedge.Base.Decimal.{int}
use smartedge.Swarm.Database.HostIds.{is_free}
use smartedge.AccessPoint.Vxlan.{
  Ap, Site, parse_ids, get_ip_from_arp_by_physical_mac, assign_vxlan, outside,
  create_vxlan_by_host_id, cli,
}
use smartedge.Swarm.Database.{
  lowest_free, without, range_from, next_host_id, get_next_available_host_id,
}
use smartedge.Swarm.Settings.{this_swarm_subnet, this_swarm_dhcp_start, this_swarm_dhcp_end}
use smartedge.AccessPoint.Vxlan.Ids.{assign_vxlan-IsLowest}
use smartedge.AccessPoint.Connect.{
  node_uuid, attach_tunnel, default_ip, handle_new_connected_station,
}
use smartedge.AccessPoint.Connect.Table.{handle_new-default, handle_new-swarm}
use smartedge.AccessPoint.Disconnect.{wait_rounds, handle_disconnected_station}
use smartedge.AccessPoint.Disconnect.Moved.{handle_disconnected-moved}
use smartedge.AccessPoint.Connect.Table.{asked}

abbrev mac : Text
mac = codes "aa:bb:cc:dd:ee:ff"

abbrev row_of : Text → ArtRow
row_of ap = record {
  uuid = [];
  current_ap = ap;
  current_swarm = 0;
  ap_port = 3;
  virt_ip = 105 ∷ [];
}

-- The node is at the first access point in the first answer, and at the second one afterwards.
abbrev where_is : List Event → Option (Option ArtRow)
where_is [] = some (some (row_of (97 ∷ [])))
where_is (e ∷ before) = some (some (row_of (98 ∷ [])))

abbrev away : Env
away = record {
  write = λ _ _. true;
  art_row = λ before _. where_is before;
  art_rows = λ _ _. some [];
  id_of = λ _ _. some none;
  ids = λ _. some [];
  onecmd = λ _ _ _. record { output = []; raises = false };
  run = λ _ _. record { stdout = []; stderr = [] };
  connect = λ _ _ _. true;
  rounds = λ _. 1;
}

abbrev site : Site
site = record { self_uuid = 97 ∷ []; wlan_if = 119 ∷ []; this_ap = 116 ∷ [] }

abbrev start : Ap
start = record {
  io = record { events = []; captured = []; position = 0 };
  connected_stations = (mac, record { mac = mac; vip = 105 ∷ []; vxlan_id = 3 }) ∷ [];
  created_vxlans = 3 ∷ [];
}

-- A station that joins: the ARP table has it, and no tunnel is there.
abbrev arp_line : Text
arp_line = codes "10.0.0.7 ether aa:bb:cc:dd:ee:ff C w"

abbrev joining : Env
joining = record away {
  art_row = λ _ _. some none;
  run = λ before _. record { stdout = elim before [ [] ↦ arp_line | e ∷ es ↦ [] ]; stderr = [] };
  rounds = λ _. 1;
}

abbrev empty_ap : Ap
empty_ap = record start { connected_stations = []; created_vxlans = [] }

abbrev ip : Text
ip = codes "10.0.0.7"

abbrev vip : Text
vip = codes "10.0.1.7"

abbrev known_ip : Ap
known_ip = (get_ip_from_arp_by_physical_mac joining site mac empty_ap).1

known_ip-reached :
    get_ip_from_arp_by_physical_mac joining site mac empty_ap ≡ (ok (some ip), known_ip)
unfolding get_ip_from_arp_by_physical_mac words contains_text starts_with codes splitlines strip
known_ip-reached = refl

abbrev chosen : Ap
chosen = (assign_vxlan joining ip (asked mac known_ip)).1

chosen-reached : assign_vxlan joining ip (asked mac known_ip) ≡ (ok (some 1), chosen)
unfolding assign_vxlan get_ip_from_arp_by_physical_mac splitlines strip codes lowest_free without
    range_from elem
chosen-reached = refl

abbrev attached : Ap
attached = (attach_tunnel joining site 1 ip chosen).1

attached-reached : attach_tunnel joining site 1 ip chosen ≡ (ok tt, attached)
unfolding attach_tunnel create_vxlan_by_host_id cli
attached-reached = refl

has_vip : default_ip ip ≡ some vip
unfolding default_ip codes split
has_vip = refl

has_address : ip_address vip ≡ ok 167772423
unfolding ip_address codes split
has_address = refl

handle_new-default_example :
    (handle_new_connected_station joining site [] mac empty_ap).1.connected_stations
    ≡ insert mac (record { mac = mac; vip = vip; vxlan_id = 1 }) []
unfolding lookup
handle_new-default_example =
    handle_new-default joining site [] mac ip vip empty_ap known_ip chosen attached 1 none 167772423
      known_ip-reached refl refl chosen-reached attached-reached has_vip has_address

-- A node of a swarm that comes from another access point.
abbrev swarm_row : ArtRow
swarm_row = record (row_of (98 ∷ [])) { current_swarm = 1 }

abbrev moving : Env
moving = record joining { art_row = λ _ _. some (some swarm_row) }

abbrev moving_ip : Ap
moving_ip = (get_ip_from_arp_by_physical_mac moving site mac empty_ap).1

moving_ip-reached :
    get_ip_from_arp_by_physical_mac moving site mac empty_ap ≡ (ok (some ip), moving_ip)
unfolding get_ip_from_arp_by_physical_mac words contains_text starts_with codes splitlines strip
moving_ip-reached = refl

abbrev tunnel : Ap
tunnel = (assign_vxlan moving ip (asked mac moving_ip)).1

tunnel-reached : assign_vxlan moving ip (asked mac moving_ip) ≡ (ok (some 1), tunnel)
unfolding assign_vxlan get_ip_from_arp_by_physical_mac splitlines strip codes lowest_free without
    range_from elem
tunnel-reached = refl

abbrev on_switch : Ap
on_switch = (attach_tunnel moving site 1 ip tunnel).1

on_switch-reached : attach_tunnel moving site 1 ip tunnel ≡ (ok tt, on_switch)
unfolding attach_tunnel create_vxlan_by_host_id cli
on_switch-reached = refl

abbrev host_run : Result ℕ × Ap
host_run =
    outside
      (get_next_available_host_id moving this_swarm_dhcp_start this_swarm_dhcp_end (node_uuid mac))
      on_switch

host-reached : host_run ≡ (ok 1, host_run.1)
unfolding outside get_next_available_host_id ◌>>=◌ require lift next_host_id
host-reached = refl

abbrev swarm_vmac : Text
swarm_vmac = int_to_mac (this_swarm_subnet + 1)

abbrev swarm_vip : Text
swarm_vip = ip_text (this_swarm_subnet + 1)

swarm_address :
    assign_virtual_mac_and_ip_by_host_id this_swarm_subnet 1 ≡ ok (swarm_vmac, swarm_vip)
unfolding assign_virtual_mac_and_ip_by_host_id
swarm_address = refl

handle_new-swarm_example :
    (handle_new_connected_station moving site [] mac empty_ap).1.connected_stations
    ≡ insert mac (record { mac = mac; vip = swarm_vip; vxlan_id = 1 }) []
unfolding lookup
handle_new-swarm_example =
    handle_new-swarm moving site [] mac ip swarm_vip empty_ap moving_ip tunnel on_switch 1 swarm_row
      swarm_vmac 1 host_run.1 moving_ip-reached refl refl tunnel-reached on_switch-reached
      host-reached swarm_address

present : is_some (lookup mac start.connected_stations) ≡ true
unfolding lookup ◌=?◌ codes
present = refl

own : (97 ∷ [] =? 97 ∷ []) ≡ true
unfolding ◌=?◌
own = refl

other : (98 ∷ [] =? 97 ∷ []) ≡ false
unfolding ◌=?◌
other = refl

abbrev gone : Ap
gone = (wait_rounds away site mac 1 (asked mac start)).1

waited : wait_rounds away site mac 1 (asked mac start) ≡ (ok false, gone)
unfolding wait_rounds codes contains_text starts_with splitlines strip
waited = refl

elsewhere_by_then : where_is gone.io.events ≡ some (some (row_of (98 ∷ [])))
unfolding wait_rounds codes splitlines strip
elsewhere_by_then = refl

handle_disconnected-moved_example :
    (handle_disconnected_station away site [] mac start ≡ (ok tt, asked mac gone))
    × (handle_new_connected_station away site [] mac (asked mac gone) ≡ (ok tt, asked mac gone))
handle_disconnected-moved_example =
    handle_disconnected-moved away site [] mac (row_of (97 ∷ [])) (row_of (98 ∷ [])) start gone
      present refl own waited elsewhere_by_then other

-- The node stays with the first access point.
abbrev home : Env
home = record away { art_row = λ _ _. some (some (row_of (97 ∷ []))) }

abbrev home_gone : Ap
home_gone = (wait_rounds home site mac 1 (asked mac start)).1

-- The tunnels 1 and 3 are there, and none to the station.
abbrev tunnels : Env
tunnels = record away {
  run = λ before _. record {
    stdout = elim before [ [] ↦ [] | e ∷ es ↦ codes "1\n3\n" ];
    stderr = [];
  };
}

listed : parse_ids (words (codes "1\n3\n")) ≡ some (1 ∷ 3 ∷ [])
unfolding parse_ids words int codes
listed = refl

assign_vxlan-IsLowest_example :
    (((assign_vxlan tunnels mac start).0 ≡ raised value_error)
      ↔ ((m : ℕ) → is_free 1 500 (1 ∷ 3 ∷ []) m ≡ false))
    × ((n : ℕ)
        → ((assign_vxlan tunnels mac start).0 ≡ ok (some n)) ↔ (
            (is_free 1 500 (1 ∷ 3 ∷ []) n ≡ true) × ((m : ℕ) → is_free 1 n (1 ∷ 3 ∷ []) m ≡ false)))
assign_vxlan-IsLowest_example =
    assign_vxlan-IsLowest tunnels mac start (1 ∷ 3 ∷ []) refl refl listed
