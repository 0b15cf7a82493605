-- ===== src/AccessPoint/Vxlan.antt =====
-- The state of an access point, the ARP table, and the tunnels: `create_vxlan_by_host_id`,
-- `delete_vxlan_by_host_id`, `get_next_available_vxlan_id` of ap_manager/ap_manager.py.
pub mod Laws
pub mod Ids
use smartedge.Base.{ℕ, zero, suc, ◌+◌, Bool, true, false, Option, none, some, List, [], ◌∷◌, ◌++◌}
use smartedge.Base.{◌&&◌, ◌==◌, Text, codes, elem, is_empty, if◌then◌else◌}
use smartedge.Base.Bytes.{strip, splitlines, words, contains_text}
use smartedge.Base.Decimal.{ℤ, pos, negsuc, dec, int}
use smartedge.Base.Dict.{Dict}
use smartedge.Base.Exec.{
  Exec, Result, ok, raised, value_error, index_error, return, require, lift, gets, ◌>>=◌, ◌>>◌,
}
use smartedge.Swarm.Io.{Process, Env, Io, run_shell, run_cli_command}
use smartedge.Swarm.Database.{lowest_free}

-- A value of `connected_stations`.
pub record Station : Type 0 where
  pub mac : Text
  pub vip : Text
  pub vxlan_id : ℕ

pub record Ap : Type 0 where
  pub io : Io
  pub connected_stations : Dict Station
  pub created_vxlans : List ℕ

-- The names that are fixed when the access point starts.
pub record Site : Type 0 where
  pub self_uuid : Text
  pub wlan_if : Text
  pub this_ap : Text

-- An action on the outside alone.
unfoldable pub outside : {A : Type 0} → Exec Io A → Exec Ap A
outside m s = let (r, t) = m s.io in (r, record s { io = t })

unfoldable pub shell : Env → Text → Exec Ap Process
unfolding outside run_shell
shell env command = outside (run_shell env command)

unfoldable pub cli : Env → Text → Text → Exec Ap Text
unfolding outside run_cli_command
cli env instance_ command = outside (run_cli_command env command instance_)

abbrev first_word : Text → Option Text
first_word line = elim (words line) [ [] ↦ none | w ∷ ws ↦ some w ]

-- The first line with both texts in it, and its first word.
find_address : Text → Text → List Text → Option Text
unfolding contains_text words
find_address mac wlan [] = none
find_address mac wlan (line ∷ lines) =
    if contains_text mac line && contains_text wlan line
    then first_word line
    else find_address mac wlan lines

-- The rounds that are left before the time is over.
arp_rounds : Env → Site → Text → ℕ → Exec Ap (Option Text)
unfolding find_address shell
arp_rounds env site mac zero s = (ok none, s)
arp_rounds env site mac (suc k) s =
    let p = env.run s.io.events (codes "arp -en") in
    let t = (shell env (codes "arp -en") s).1 in
    let again = arp_rounds env site mac k t in
    if is_empty p.stderr
    then (elim (find_address mac site.wlan_if (splitlines (strip p.stdout))) [
      | some ip ↦ (ok (some ip), t)
      | none ↦ again
    ])
    else (ok none, t)

unfoldable pub get_ip_from_arp_by_physical_mac : Env → Site → Text → Exec Ap (Option Text)
unfolding arp_rounds
get_ip_from_arp_by_physical_mac env site mac s = arp_rounds env site mac (env.rounds s.io.events) s

-- `set(map(int, words))`, of which only the natural numbers matter to the difference.
unfoldable pub parse_ids : List Text → Option (List ℕ)
parse_ids [] = some []
parse_ids (w ∷ ws) = elim (int w) [
  | none ↦ none
  | some i ↦ elim (parse_ids ws) [
    | none ↦ none
    | some ids ↦ elim i [ pos n ↦ some (n ∷ ids) | negsuc n ↦ some ids ]
  ]
]

abbrev pub list_ids_command : Text
list_ids_command = codes "ip -d link show | awk '/vxlan id/ {print $3}' "

-- The least identifier from 1 to 499 that no tunnel has.
unfoldable pub get_next_available_vxlan_id : Env → Exec Ap ℕ
unfolding shell parse_ids require lift ◌>>=◌
get_next_available_vxlan_id env = do
  p ← shell env list_ids_command
  ids ← require value_error (parse_ids (words p.stdout))
  lift (lowest_free 1 499 ids)

unfoldable pub add_vxlan : ℕ → Exec Ap (Unit {0})
add_vxlan id s = (
  ok tt,
  (if elem id s.created_vxlans
      then s
      else record s { created_vxlans = s.created_vxlans ++ id ∷ [] }),
)

abbrev pub vxlan_name : ℕ → Text
vxlan_name id = codes "se_vxlan" ++ dec id

abbrev create_command : Site → ℕ → Text → Text
create_command site id remote =
    codes "ip link add "
    ++ (vxlan_name id
        ++ (codes " type vxlan id "
            ++ (dec id
                ++ (codes " dev "
                    ++ (site.wlan_if ++ (codes " remote " ++ (remote ++ codes " dstport 4789")))))))

activated : ℕ → Bool → Exec Ap (Option ℕ)
activated id true = return (some id)
activated id false = return none

created : Env → ℕ → Bool → Exec Ap (Option ℕ)
unfolding add_vxlan activated shell return ◌>>=◌
created env id false = return none
created env id true = do
  add_vxlan id
  p ← shell env (codes "ip link set " ++ (vxlan_name id ++ codes " up"))
  activated id (is_empty p.stderr)

-- `none` is the -1 of a failure.
unfoldable pub create_vxlan_by_host_id : Env → Site → ℕ → Text → Exec Ap (Option ℕ)
unfolding created shell ◌>>=◌
create_vxlan_by_host_id env site id remote = do
  p ← shell env (create_command site id remote)
  created env id (is_empty p.stderr)

drop_id : ℕ → List ℕ → List ℕ
drop_id id [] = []
drop_id id (x ∷ xs) = let rest = drop_id id xs in if x == id then rest else x ∷ rest

deleted : ℕ → Bool → Exec Ap (Unit {0})
unfolding drop_id
deleted id false s = (ok tt, s)
deleted id true s = (ok tt, record s { created_vxlans = drop_id id s.created_vxlans })

unfoldable pub delete_vxlan_by_host_id : Env → ℕ → Exec Ap (Unit {0})
unfolding deleted shell ◌>>=◌
delete_vxlan_by_host_id env id = do
  p ← shell env (codes "ip link del " ++ vxlan_name id)
  deleted id (is_empty p.stderr)

abbrev pub remote_command : Text → Text
remote_command ip = codes "ip -d link show | awk '/remote " ++ (ip ++ codes "/ {print $3}' ")

-- The identifier in the answer; the tunnel that has it is deleted. A negative one ends the handling.
reuse_vxlan : Env → ℤ → Exec Ap (Option ℕ)
unfolding shell return ◌>>=◌
reuse_vxlan env (negsuc n) = return none
reuse_vxlan env (pos id) = do shell env (codes "ip link del " ++ vxlan_name id); return (some id)

fresh_vxlan : Env → Exec Ap (Option ℕ)
unfolding get_next_available_vxlan_id return ◌>>=◌
fresh_vxlan env = do id ← get_next_available_vxlan_id env; return (some id)

choose_vxlan : Env → Process → Exec Ap (Option ℕ)
unfolding reuse_vxlan fresh_vxlan require return ◌>>=◌
choose_vxlan env p s =
    let fresh = fresh_vxlan env s in
    let reused = (require value_error (int p.stdout) >>= reuse_vxlan env) s in
    if is_empty p.stderr then (if is_empty p.stdout then fresh else reused) else (ok none, s)

-- The part that both cases of a new station share: the identifier of its tunnel, or `none` where
-- the handling ends.
unfoldable pub assign_vxlan : Env → Text → Exec Ap (Option ℕ)
unfolding choose_vxlan shell ◌>>=◌
assign_vxlan env ip = do p ← shell env (remote_command ip); choose_vxlan env p
