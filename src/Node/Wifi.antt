-- ===== src/Node/Wifi.antt =====
-- The lookups of the access point's address, `monitor_wifi_status`, `handle_disconnection` and
-- `exit_handler` of node_manager/node_manager.py.
use smartedge.Base.{ℕ, Option, none, some, List, [], ◌∷◌, ◌++◌}
use smartedge.Base.{Text, codes, get_elem?, if◌then◌else◌}
use smartedge.Base.Bytes.{contains_text, strip, splitlines, words}
use smartedge.Base.Exec.{
  Exec, Result, ok, raised, index_error, attribute_error, return, raise, lift, ◌>>=◌, ◌>>◌,
}
use smartedge.Node.Service.{Env, Node, Self, stop_heartbeat_service_if_running, run_program}

-- The word at the place, in the first line with the text, where there is such a line.
word_of_line : Text → ℕ → List Text → Result (Option Text)
unfolding contains_text words
word_of_line needle k [] = ok none
word_of_line needle k (line ∷ lines) =
    let rest = word_of_line needle k lines in
    let here : Result (Option Text) = elim (get_elem? (words line) k) [
      | none ↦ raised index_error
      | some w ↦ ok (some w)
    ] in
    if contains_text needle line then here else rest

unfoldable pub get_ip_from_arp_by_physical_mac : Env → Text → Exec Node (Option Text)
unfolding word_of_line lift ◌>>=◌
get_ip_from_arp_by_physical_mac env physical_mac = do
  proc ← run_program env (codes "arp -en")
  lift (word_of_line physical_mac 0 (splitlines (strip proc.stdout)))

ip_of_mac : Env → Option Text → Exec Node (Option Text)
unfolding get_ip_from_arp_by_physical_mac return
ip_of_mac env none = return none
ip_of_mac env (some mac) = get_ip_from_arp_by_physical_mac env mac

unfoldable pub get_ap_physical_ip_by_ifname : Env → Text → Exec Node (Option Text)
unfolding word_of_line ip_of_mac lift ◌>>=◌
get_ap_physical_ip_by_ifname env ifname = do
  proc ← run_program env (codes "iwconfig " ++ ifname)
  mac ← lift (word_of_line (codes "Access Point") 5 (splitlines (strip proc.stdout)))
  ip_of_mac env mac

-- `readlines()` gives a list, which is never the sentinel "", and a list has no `strip`: the first
-- round raises, whatever was read.
unfoldable pub monitor_wifi_status : Env → Self → Exec Node (Unit {0})
unfolding raise ◌>>=◌
monitor_wifi_status env self = do
  run_program env (codes "nmcli device monitor " ++ self.default_ifname)
  raise attribute_error

-- It returns before the commands that would undo the configuration.
unfoldable pub handle_disconnection : Exec Node (Unit {0})
handle_disconnection s = (ok tt, s)

-- An exception of either half is logged.
unfoldable pub exit_handler : Env → Exec Node (Unit {0})
unfolding handle_disconnection stop_heartbeat_service_if_running
exit_handler env s =
    let (_, t) = stop_heartbeat_service_if_running env s in
    let (_, u) = handle_disconnection t in (ok tt, u)
