-- ===== src/Swarm/Switch.antt =====
-- lib/bmv2_thrift_lib.py: the tables and the broadcast ports of a BMv2 switch, by its command line.
-- A switch is named by the address to which its command line is connected.
pub mod Ports
pub mod Listed
pub mod Answers
pub mod Quiet
use smartedge.Base.{
  ℕ, ◌+◌, ◌*◌, ◌-◌, Bool, true, false, not, Option, none, some, List, [], ◌∷◌, ◌++◌,
}
use smartedge.Base.{◌&&◌, ◌||◌, ◌==◌, Text, codes, leb, elem, get_elem?, is_empty, if◌then◌else◌}
use smartedge.Base.Bytes.{split, split_text, splitlines, starts_with, contains_text, join_spaces}
use smartedge.Base.Decimal.{dec, is_digit}
use smartedge.Base.Hex.{hex_value}
use smartedge.Base.Exec.{Exec, Result, ok, raised, index_error, return, require, lift, ◌>>=◌, ◌>>◌}
use smartedge.Address.{extract_numbers}
use smartedge.Swarm.Words.{decimal_word, hex_word}
use smartedge.Swarm.Io.{Env, Io, run_cli_command}

-- `communication_protocol`
pub data Protocol : Type 0 where
  thrift_cli p4rt_grpc : Protocol

-- What `add_entry_to_bmv2` returns.
pub data Added : Type 0 where
  nothing switch_response_error switch_response_invalid : Added
  entry_handle : Text → Added

-- The table of the routes, and the key of a single address.
abbrev pub tb_ipv4_lpm : Text
tb_ipv4_lpm = codes "MyIngress.tb_ipv4_lpm"

abbrev pub host_key : Text → Text
host_key ip = ip ++ codes "/32"

abbrev space : ℕ
space = 32

-- The commands, with a space between their words.
unfoldable pub dump_entry_command : Text → Text → Text
dump_entry_command table key = codes "table_dump_entry_from_key " ++ (table ++ space ∷ key)

unfoldable pub table_add_command : Text → Text → Text → Text → Text
table_add_command table action key params =
    codes "table_add " ++ (table ++ space ∷ (action ++ space ∷ (key ++ codes " => " ++ params)))

unfoldable pub table_modify_command : Text → Text → ℕ → Text → Text
table_modify_command table action handle params =
    codes "table_modify " ++ (table ++ space ∷ (action ++ space ∷ (dec handle ++ space ∷ params)))

unfoldable pub table_delete_command : Text → ℕ → Text
table_delete_command table handle = codes "table_delete " ++ (table ++ space ∷ dec handle)

-- `str(port) for port in ports`
abbrev pub port_texts : List ℕ → List Text
port_texts [] = []
port_texts (p ∷ ports) = dec p ∷ port_texts ports

unfoldable pub node_update_command : List ℕ → Text
node_update_command ports =
    codes "mc_node_update 0 " ++ (join_spaces (port_texts ports) ++ space ∷ [])

unfoldable pub port_add_command : Text → Text → Text
port_add_command device port = codes "port_add " ++ (device ++ space ∷ port)

unfoldable pub port_remove_command : Text → Text
port_remove_command port = codes "port_remove " ++ port

-- What the lines of the answer to `table_add` make of it.
unfoldable pub read_added : List Text → Result Added
unfolding decimal_word contains_text starts_with
read_added [] = ok nothing
read_added (line ∷ lines) =
    if contains_text (codes "Error") line
    then ok switch_response_error
    else if contains_text (codes "Invalid") line
    then ok switch_response_invalid
    else if starts_with (codes "Entry has been added with handle") line
    then (elim (decimal_word line) [ none ↦ raised index_error | some h ↦ ok (entry_handle h) ])
    else read_added lines

-- The handle in the first line that dumps an entry.
unfoldable pub find_handle : List Text → Result (Option ℕ)
unfolding hex_word contains_text
find_handle [] = ok none
find_handle (line ∷ lines) =
    if contains_text (codes "Dumping entry") line
    then (elim (hex_word line) [ none ↦ raised index_error | some h ↦ ok (some h) ])
    else find_handle lines

modify_entry : Env → Text → Text → Text → Text → Option ℕ → Exec Io Added
unfolding run_cli_command return table_modify_command ◌>>=◌
modify_entry env switch table action params none = return nothing
modify_entry env switch table action params (some handle) = do
  run_cli_command env (table_modify_command table action handle params) switch
  return nothing

-- An entry with the key is there: it is given the new action.
change_entry : Env → Text → Text → Text → Text → Text → Exec Io Added
unfolding modify_entry find_handle lift ◌>>=◌
change_entry env switch table action params response = do
  handle ← lift (find_handle (splitlines response))
  modify_entry env switch table action params handle

-- No entry has the key.
new_entry : Env → Text → Text → Text → Text → Text → Exec Io Added
unfolding read_added run_cli_command table_add_command lift ◌>>=◌
new_entry env switch table action key params = do
  response ← run_cli_command env (table_add_command table action key params) switch
  lift (read_added (splitlines response))

abbrev pub bad_match_key : Text
bad_match_key = codes "Invalid table operation (BAD_MATCH_KEY)"

-- `add_entry_to_bmv2`
unfoldable pub add_entry_to_bmv2 : Env → Protocol → Text → Text → Text → Text → Text → Exec Io Added
unfolding new_entry change_entry run_cli_command dump_entry_command contains_text ◌>>=◌
add_entry_to_bmv2 env p4rt_grpc switch table action key params = λ s. (ok nothing, s)
add_entry_to_bmv2 env thrift_cli switch table action key params = do
  response ← run_cli_command env (dump_entry_command table key) switch
  λ s.
      if contains_text bad_match_key response
      then new_entry env switch table action key params s
      else change_entry env switch table action params response s

-- `get_entry_handle`
unfoldable pub get_entry_handle : Env → Text → Text → Text → Exec Io (Option ℕ)
unfolding run_cli_command dump_entry_command find_handle lift ◌>>=◌
get_entry_handle env switch table key = do
  response ← run_cli_command env (dump_entry_command table key) switch
  lift (find_handle (splitlines response))

delete_handle : Env → Text → Text → Option ℕ → Exec Io (Unit {0})
unfolding run_cli_command table_delete_command return ◌>>=◌
delete_handle env switch table none = return tt
delete_handle env switch table (some handle) = do
  run_cli_command env (table_delete_command table handle) switch
  return tt

-- `delete_forwarding_entry_from_bmv2`
unfoldable pub delete_forwarding_entry_from_bmv2 :
    Env → Protocol → Text → Text → Text → Exec Io (Unit {0})
unfolding get_entry_handle delete_handle ◌>>=◌
delete_forwarding_entry_from_bmv2 env p4rt_grpc switch table key = λ s. (ok tt, s)
delete_forwarding_entry_from_bmv2 env thrift_cli switch table key = do
  handle ← get_entry_handle env switch table key
  delete_handle env switch table handle

-- A set of ports, in the order in which they were added.
unfoldable pub add_port : ℕ → List ℕ → List ℕ
add_port port ports = if elem port ports then ports else ports ++ port ∷ []

unfoldable pub remove_port : ℕ → List ℕ → List ℕ
remove_port port [] = []
remove_port port (p ∷ ports) =
    let rest = remove_port port ports in if p == port then rest else p ∷ rest

-- `set(numbers)`
unfoldable pub port_set : List ℕ → List ℕ → List ℕ
unfolding add_port
port_set seen [] = seen
port_set seen (p ∷ ports) = port_set (add_port p seen) ports

-- `set(extract_numbers([line.split('ports=[')[1].split(']')[0]]))`, for the line under a group.
unfoldable pub listed_ports : Option Text → Result (List ℕ)
unfolding port_set split_text
listed_ports none = raised index_error
listed_ports (some line) = elim (get_elem? (split_text (codes "ports=[") line) 1) [
  | none ↦ raised index_error
  | some part ↦ elim (get_elem? (split b']' part) 0) [
    | none ↦ raised index_error
    | some inside ↦ ok (port_set [] (extract_numbers (inside ∷ [])))
  ]
]

abbrev next_line : List Text → Option Text
next_line [] = none
next_line (l ∷ ls) = some l

set_ports : Env → Text → List ℕ → Exec Io (Unit {0})
unfolding run_cli_command node_update_command return ◌>>=◌
set_ports env switch ports = do run_cli_command env (node_update_command ports) switch; return tt

abbrev is_group : Text → Bool
is_group line = contains_text (codes "mgrp(") line

-- The loop over the lines of `mc_dump`, with what to do to the ports of each group.
each_group : (List ℕ → Exec Io (Unit {0})) → List Text → Exec Io (Unit {0})
unfolding listed_ports lift ◌>>=◌
each_group act [] s = (ok tt, s)
each_group act (line ∷ lines) s =
    let rest = each_group act lines in
    let group = (do ports ← lift (listed_ports (next_line lines)); act ports; rest) s in
    if is_group line then group else rest s

-- `add_bmv2_swarm_broadcast_port`
unfoldable pub add_bmv2_swarm_broadcast_port : Env → ℕ → Text → Exec Io (Unit {0})
unfolding each_group add_port set_ports run_cli_command ◌>>=◌
add_bmv2_swarm_broadcast_port env port switch = do
  response ← run_cli_command env (codes "mc_dump") switch
  each_group (λ ports. set_ports env switch (add_port port ports)) (splitlines response)

drop_port : Env → ℕ → Text → List ℕ → Exec Io (Unit {0})
unfolding set_ports remove_port
drop_port env port switch ports s =
    if elem port ports then set_ports env switch (remove_port port ports) s else (ok tt, s)

-- `remove_bmv2_swarm_broadcast_port`
unfoldable pub remove_bmv2_swarm_broadcast_port : Env → ℕ → Text → Exec Io (Unit {0})
unfolding each_group drop_port run_cli_command ◌>>=◌
remove_bmv2_swarm_broadcast_port env port switch = do
  response ← run_cli_command env (codes "mc_dump") switch
  each_group (drop_port env port switch) (splitlines response)
