-- ===== src/AccessPoint/Exit.antt =====
-- `get_mac_from_arp_by_physical_ip` and `exit_handler` of ap_manager/ap_manager.py.
use smartedge.Base.{Option, none, some, List, [], ◌∷◌, ◌++◌}
use smartedge.Base.{Text, codes, get_elem?, is_empty, if◌then◌else◌}
use smartedge.Base.Bytes.{contains_text, strip, splitlines, words}
use smartedge.Base.Exec.{Exec, Result, ok, raised, index_error, lift, ◌>>=◌, ◌>>◌}
use smartedge.Swarm.Io.{Env}
use smartedge.AccessPoint.Vxlan.{Ap, shell}

-- The third word of the first line with the address.
find_mac : Text → List Text → Result (Option Text)
unfolding contains_text words
find_mac ip [] = ok none
find_mac ip (line ∷ lines) =
    let rest = find_mac ip lines in
    let here : Result (Option Text) = elim (get_elem? (words line) 2) [
      | none ↦ raised index_error
      | some mac ↦ ok (some mac)
    ] in
    if contains_text ip line then here else rest

unfoldable pub get_mac_from_arp_by_physical_ip : Env → Text → Exec Ap (Option Text)
unfolding find_mac lift ◌>>=◌
get_mac_from_arp_by_physical_ip env ip = do
  result ← shell env (codes "arp -en")
  lift (if is_empty result.stderr then find_mac ip (splitlines (strip result.stdout)) else ok none)

-- The tunnels among the interfaces of the machine are deleted.
unfoldable pub exit_handler : Env → List Text → Exec Ap (Unit {0})
unfolding contains_text ◌>>=◌
exit_handler env [] s = (ok tt, s)
exit_handler env (snic ∷ snics) s =
    let rest = exit_handler env snics in
    let both = (shell env (codes "ip link del " ++ snic) >> rest) s in
    if contains_text (codes "se_vxlan") snic then both else rest s
