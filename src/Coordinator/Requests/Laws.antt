-- ===== src/Coordinator/Requests/Laws.antt =====
-- What a request for nodes does: when they run out of identifiers, and what the reply holds.
use smartedge.Base.{ℕ, ◌<◌, ◌≡◌, refl, ap, ◌∙◌, none, some, arith}
use smartedge.Base.{List, [], ◌∷◌, ◌++◌, Text, codes, ◌=?◌, length}
use smartedge.Base.Dict.{Dict}
use smartedge.Base.Exec.{Exec, Result, ok, raised, index_error, require, return, try_except, ◌>>=◌}
use smartedge.Swarm.Io.{ArtRow, select_arts, select_ids, query, Event, Env}
use smartedge.Swarm.Database.{execute_read, batch_get_available_host_id, batch_host_ids}
use smartedge.Swarm.Settings.{this_swarm_dhcp_start, this_swarm_dhcp_end}
use smartedge.Swarm.Discovery.{Ap}
use smartedge.Coordinator.Onboard.{Co, Task, outside, offboard_node}
use smartedge.Coordinator.Requests.{
  Request, request, task_of, cons_task, create_tasks, serve, dispatch, requested_rows, leave_nodes,
  handle_ac_communication,
}

create_tasks-short :
    (rows : List ArtRow) (ids : List ℕ) → length ids < length rows → create_tasks rows ids ≡ none
unfolding create_tasks
create_tasks-short [] ids h = absurd (omega arith)
create_tasks-short (r ∷ rows) [] h = refl
create_tasks-short (r ∷ rows) (i ∷ ids) h =
    ap (cons_task (task_of r i)) (create_tasks-short rows ids (omega arith))

-- A state after one more event.
abbrev pub logged : Co → Event → Co
logged s e = record s { io = record s.io { events = s.io.events ++ e ∷ [] } }

pub requested_rows-found :
    (env : Env) (r : Request) (nodes : List Text) (rows : List ArtRow) (s : Co)
    → r.node_ids ≡ some nodes
    → env.art_rows s.io.events nodes ≡ some rows
    → requested_rows env r s ≡ (ok rows, logged s (query (select_arts nodes)))
unfolding requested_rows outside execute_read ◌>>=◌ require
requested_rows-found env r nodes rows s named found = rw (named, found) refl

serve-short :
    (env : Env) (run : Task → Exec Co (Unit {0})) (row : ArtRow) (rows : List ArtRow)
    (used : List ℕ) (s : Co)
    → env.ids s.io.events ≡ some used
    → length (batch_host_ids this_swarm_dhcp_start this_swarm_dhcp_end used) < length (row ∷ rows)
    → serve env run (row ∷ rows) s ≡ (raised index_error, logged s (query select_ids))
unfolding serve outside batch_get_available_host_id execute_read ◌>>=◌ require return
serve-short env run row rows used s free few =
    rw
      (
        free,
        create_tasks-short (row ∷ rows)
            (batch_host_ids this_swarm_dhcp_start this_swarm_dhcp_end used) few,
      )
      refl

-- The end of the handler, which raises nothing.
abbrev pub settled : Result (Unit {0}) × Co → Result (Unit {0}) × Co
settled (ok u, t) = (ok u, t)
settled (raised e, t) = (ok tt, t)

dispatch-leave :
    (env : Env) (aps : Dict Ap) (r : Request) (s : Co)
    → dispatch env aps r (some (codes "nll")) s ≡ leave_nodes env r s
unfolding dispatch codes ◌=?◌
dispatch-leave env aps r s = refl

pub handle-settled :
    (env : Env) (aps : Dict Ap) (r : Request) (s : Co)
    → handle_ac_communication env aps (request r) s ≡ settled (dispatch env aps r r.kind s)
unfolding handle_ac_communication try_except return
handle-settled env aps r s = go (dispatch env aps r r.kind s)
  where
    go :
        (x : Result (Unit {0}) × Co)
        → (elim x.0 as (λ _. Result (Unit {0}) × Co) [
          | ok a ↦ (ok a, x.1)
          | raised e ↦ (ok tt, x.1)
        ])
          ≡ settled x
    go (ok a, t) = refl
    go (raised e, t) = refl

pub handle-leave :
    (env : Env) (aps : Dict Ap) (r : Request) (s : Co)
    → r.kind ≡ some (codes "nll")
    → handle_ac_communication env aps (request r) s ≡ settled (leave_nodes env r s)
handle-leave env aps r s kind =
    handle-settled env aps r s
    ∙ ap (λ k. settled (dispatch env aps r k s)) kind
    ∙ ap settled (dispatch-leave env aps r s)

pub leave_nodes-serve :
    (env : Env) (r : Request) (nodes : List Text) (rows : List ArtRow) (s : Co)
    → r.node_ids ≡ some nodes
    → env.art_rows s.io.events nodes ≡ some rows
    → leave_nodes env r s
      ≡ serve env (offboard_node env) rows (logged s (query (select_arts nodes)))
unfolding leave_nodes ◌>>=◌
leave_nodes-serve env r nodes rows s named found =
    rw (requested_rows-found env r nodes rows s named found) refl

-- A request to leave fails where fewer host identifiers are free than nodes were found: no node is
-- told, none is answered, and the two statements are all that happens.
pub leave-exhausted :
    (env : Env) (aps : Dict Ap) (r : Request) (nodes : List Text) (row : ArtRow)
    (rows : List ArtRow) (used : List ℕ) (s : Co)
    → r.kind ≡ some (codes "nll")
    → r.node_ids ≡ some nodes
    → env.art_rows s.io.events nodes ≡ some (row ∷ rows)
    → env.ids (s.io.events ++ query (select_arts nodes) ∷ []) ≡ some used
    → length (batch_host_ids this_swarm_dhcp_start this_swarm_dhcp_end used) < length (row ∷ rows)
    → handle_ac_communication env aps (request r) s
      ≡ (ok tt, logged (logged s (query (select_arts nodes))) (query select_ids))
leave-exhausted env aps r nodes row rows used s kind named found free few =
    handle-leave env aps r s kind
    ∙ ap settled (
        leave_nodes-serve env r nodes (row ∷ rows) s named found
        ∙ serve-short env (offboard_node env) row rows used (logged s (query (select_arts nodes)))
            free few)
