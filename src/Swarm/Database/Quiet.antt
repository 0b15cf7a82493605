-- ===== src/Swarm/Database/Quiet.antt =====
-- No statement of lib/database_comms.py sends a configuration.
use smartedge.Base.{refl, Option, List, [], ◌∷◌, ◌++◌, arith, ℕ}
use smartedge.Base.{Text}
use smartedge.Swarm.Io.{Query, query, notify_gui, Event, Env, SwarmRow, notify_gui_backend}
use smartedge.Swarm.Io.Quiet.{configs, Quiet, quiet_event}
use smartedge.Swarm.Database.{
  execute_read, write_and_notify, insert_node_into_swarm_database, update_art_with_node_info,
}

pub execute_read-Quiet :
    {A : Type 0} (rows : List Event → Option A) (q : Query) → Quiet (execute_read rows q)
unfolding execute_read configs
execute_read-Quiet rows q = record { runs = λ s. quiet_event s.events (query q) refl }

write_and_notify-Quiet :
    (env : Env) (table : Text) (q : Query) → Quiet (write_and_notify env table q)
unfolding write_and_notify notify_gui_backend
write_and_notify-Quiet env table q = record {
  runs = λ s.
      let asked = quiet_event s.events (query q) (unfold configs in refl) in
      let told =
        quiet_event (s.events ++ query q ∷ []) (notify_gui table) (unfold configs in refl) in
      ground (arith, asked, told);
}

pub insert_node-Quiet :
    (env : Env) (row : SwarmRow) → Quiet (insert_node_into_swarm_database env row)
unfolding insert_node_into_swarm_database
insert_node-Quiet env row = search (write_and_notify-Quiet)

pub update_art-Quiet :
    (env : Env) (uuid ap_ : Text) (swarm : ℕ) (ip : Text)
    → Quiet (update_art_with_node_info env uuid ap_ swarm ip)
unfolding update_art_with_node_info
update_art-Quiet env uuid ap_ swarm ip = search (write_and_notify-Quiet)
