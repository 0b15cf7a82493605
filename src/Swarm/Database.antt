-- ===== src/Swarm/Database.antt =====
-- lib/database_comms.py, with Cassandra in use.
pub mod HostIds
pub mod Lowest
pub mod Quiet
use smartedge.Base.{
  ℕ, zero, suc, ◌+◌, ◌-◌, Bool, true, false, not, Option, none, some, List, [], ◌∷◌, map,
}
use smartedge.Base.{Text, codes, elem, ltb, length, is_empty, if◌then◌else◌}
use smartedge.Base.Exec.{
  Exec, Result, ok, raised, value_error, type_error, attribute_error, return, require, lift, ◌>>=◌,
  ◌>>◌,
}
use smartedge.Swarm.Io.{
  SwarmStatus, SwarmRow, ArtRow, Query, insert_swarm, insert_art, update_art, update_status,
  delete_art, delete_swarm, select_art, select_arts, select_id_of, select_ids, query, Event, Env,
  Io, log, notify_gui_backend,
}

-- `execute_query` of a statement that writes: `false` is the -1 of a failure.
unfoldable pub execute_write : Env → Query → Exec Io Bool
execute_write env q s = (ok (env.write s.events q), log s (query q))

-- `execute_query` of a statement that reads: `none` is the -1 of a failure.
unfoldable pub execute_read : {A : Type 0} → (List Event → Option A) → Query → Exec Io (Option A)
execute_read rows q s = (ok (rows s.events), log s (query q))

-- The statement, and the notification of the GUI unless it failed.
write_and_notify : Env → Text → Query → Exec Io Bool
unfolding execute_write notify_gui_backend ◌>>=◌
write_and_notify env table q s =
    let after = log s (query q) in
    if env.write s.events q
    then (notify_gui_backend table >> λ t. (ok true, t)) after
    else (ok false, after)

unfoldable pub update_db_with_node_status : Env → Text → SwarmStatus → Exec Io Bool
unfolding write_and_notify
update_db_with_node_status env uuid status =
    write_and_notify env (codes "swarm_table") (update_status uuid status)

unfoldable pub insert_node_into_swarm_database : Env → SwarmRow → Exec Io Bool
unfolding write_and_notify
insert_node_into_swarm_database env row =
    write_and_notify env (codes "swarm_table") (insert_swarm row)

unfoldable pub insert_into_art : Env → ArtRow → Exec Io Bool
unfolding write_and_notify
insert_into_art env row = write_and_notify env (codes "art") (insert_art row)

unfoldable pub update_art_with_node_info : Env → Text → Text → ℕ → Text → Exec Io Bool
unfolding write_and_notify
update_art_with_node_info env uuid ap swarm ip =
    write_and_notify env (codes "art") (update_art uuid ap swarm ip)

unfoldable pub delete_node_from_swarm_database : Env → Text → Exec Io Bool
unfolding write_and_notify
delete_node_from_swarm_database env uuid =
    write_and_notify env (codes "swarm_table") (delete_swarm uuid)

-- The GUI is told of the deletion whether it succeeded or not.
unfoldable pub delete_node_from_art : Env → Text → Exec Io (Unit {0})
unfolding execute_write delete_node_from_swarm_database notify_gui_backend return
delete_node_from_art env uuid = do
  execute_write env (delete_art uuid)
  notify_gui_backend (codes "art")
  delete_node_from_swarm_database env uuid
  return tt

unfoldable pub get_node_info_from_art : Env → Text → Exec Io (Option (Option ArtRow))
unfolding execute_read
get_node_info_from_art env uuid = execute_read (λ before. env.art_row before uuid) (select_art uuid)

unfoldable pub reuse_node_swarm_id : Env → Text → Exec Io (Option (Option ℕ))
unfolding execute_read
reuse_node_swarm_id env uuid = execute_read (λ before. env.id_of before uuid) (select_id_of uuid)

-- `range(first, first + k)`
unfoldable pub range_from : ℕ → ℕ → List ℕ
range_from first zero = []
range_from first (suc k) = first ∷ range_from (suc first) k

-- `set(range(first, last)) - set(used)`, in increasing order.
unfoldable pub without : List ℕ → List ℕ → List ℕ
without used [] = []
without used (x ∷ xs) = let rest = without used xs in if elem x used then rest else x ∷ rest

-- The `min` of the free identifiers, which raises where there is none.
unfoldable pub lowest_free : ℕ → ℕ → List ℕ → Result ℕ
lowest_free first max_id used = elim (without used (range_from first (max_id + 1 - first))) [
  | [] ↦ raised value_error
  | x ∷ xs ↦ ok x
]

unfoldable pub next_host_id : ℕ → ℕ → List ℕ → Result ℕ
next_host_id first max_id [] = ok first
next_host_id first max_id (x ∷ used) = lowest_free first max_id (x ∷ used)

-- `get_next_available_host_id_from_swarm_table`
unfoldable pub get_next_available_host_id : Env → ℕ → ℕ → Text → Exec Io ℕ
unfolding reuse_node_swarm_id execute_read
get_next_available_host_id env first_host_id max_host_id uuid = do
  reused ← reuse_node_swarm_id env uuid
  row ← require attribute_error reused
  elim row [
    | some id ↦ return id
    | none ↦ (do
      rows ← execute_read env.ids select_ids
      used ← require type_error rows
      lift (next_host_id first_host_id max_host_id used))
  ]

-- The free identifiers in increasing order. The range of an empty table ends one earlier.
unfoldable pub batch_host_ids : ℕ → ℕ → List ℕ → List ℕ
batch_host_ids first max_id [] = range_from first (max_id - first)
batch_host_ids first max_id (x ∷ used) = without (x ∷ used) (range_from first (max_id + 1 - first))

-- `batch_get_available_host_id_from_swarm_table`
unfoldable pub batch_get_available_host_id : Env → ℕ → ℕ → Exec Io (List ℕ)
unfolding execute_read
batch_get_available_host_id env first_host_id max_host_id = do
  rows ← execute_read env.ids select_ids
  used ← require type_error rows
  return (batch_host_ids first_host_id max_host_id used)
