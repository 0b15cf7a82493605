-- ===== src/Swarm/Switch/Quiet.antt =====
-- No command to a switch sends a configuration.
use smartedge.Base.{refl, ℕ, Option, none, some, List, [], ◌∷◌, Text}
use smartedge.Base.Exec.{Exec}
use smartedge.Swarm.Io.{Env, Io}
use smartedge.Swarm.Io.Quiet.{
  Quiet, bind-Quiet, lift-Quiet, if-Quiet, run_cli_command-Quiet, being_quiet,
}
use smartedge.Base.Bytes.{contains_text}
use smartedge.Swarm.Switch.{
  thrift_cli, modify_entry, change_entry, new_entry, add_entry_to_bmv2, set_ports, each_group,
  is_group, listed_ports, next_line, bad_match_key, dump_entry_command,
  add_bmv2_swarm_broadcast_port,
}

modify_entry-Quiet :
    (env : Env) (switch table action params : Text) (handle : Option ℕ)
    → Quiet (modify_entry env switch table action params handle)
unfolding modify_entry
modify_entry-Quiet env switch table action params none = search being_quiet
modify_entry-Quiet env switch table action params (some h) = search being_quiet

change_entry-Quiet :
    (env : Env) (switch table action params response : Text)
    → Quiet (change_entry env switch table action params response)
unfolding change_entry
change_entry-Quiet env switch table action params response =
    search (being_quiet, modify_entry-Quiet)

new_entry-Quiet :
    (env : Env) (switch table action key params : Text)
    → Quiet (new_entry env switch table action key params)
unfolding new_entry
new_entry-Quiet env switch table action key params = search being_quiet

pub add_entry-Quiet :
    (env : Env) (switch table action key params : Text)
    → Quiet (add_entry_to_bmv2 env thrift_cli switch table action key params)
unfolding add_entry_to_bmv2
add_entry-Quiet env switch table action key params =
    bind-Quiet (run_cli_command-Quiet env (dump_entry_command table key) switch) (λ response.
      if-Quiet (contains_text bad_match_key response)
        (new_entry-Quiet env switch table action key params)
        (change_entry-Quiet env switch table action params response))

set_ports-Quiet : (env : Env) (switch : Text) (ports : List ℕ) → Quiet (set_ports env switch ports)
unfolding set_ports
set_ports-Quiet env switch ports = search being_quiet

each_group-Quiet :
    (act : List ℕ → Exec Io (Unit {0}))
    → ((ports : List ℕ) → Quiet (act ports))
    → (lines : List Text) → Quiet (each_group act lines)
unfolding each_group
each_group-Quiet act k [] = record { runs = λ s. refl }
each_group-Quiet act k (line ∷ lines) =
    let rest = each_group-Quiet act k lines in
    if-Quiet (is_group line)
      (bind-Quiet (lift-Quiet (listed_ports (next_line lines)))
        (λ ports. bind-Quiet (k ports) (λ _. rest)))
      rest

pub add_port-Quiet :
    (env : Env) (port : ℕ) (switch : Text) → Quiet (add_bmv2_swarm_broadcast_port env port switch)
unfolding add_bmv2_swarm_broadcast_port
add_port-Quiet env port switch = search (being_quiet, each_group-Quiet, set_ports-Quiet)
