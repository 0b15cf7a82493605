-- ===== src/Gui/Details/Laws.antt =====
-- What the page of a node shows when parts of the database fail.
use smartedge.Base.{◌≡◌, true, Option, none, some, List, [], ◌∷◌, ◌++◌, arith}
use smartedge.Base.{Text, codes, if◌then◌else◌}
use smartedge.Base.Exec.{ok, require, gets, modify, return, try_except, ◌>>=◌}
use smartedge.Gui.Details.{
  Field, Backend, Page, put, set_keyspace, state_fields, key_fields, member_fields, swarm_keyspace,
  ks_swarm, state_part, key_part, member_part, get_node_details,
}

-- The fields of an answer, none where it is an exception.
abbrev answered : {A : Type 0} → (Option A → List Field) → Option (Option A) → List Field
answered fields none = []
answered fields (some row) = fields row

-- The keyspace after an attempt to set it.
abbrev moved : Backend → Text → Option Text → Option Text
moved b name before = if b.has_keyspace name then some name else before

-- The page of a node holds its name and, in this order, its status, its key and its place in the
-- swarm, each as its own query answers: a query that fails takes away its own part alone. The key
-- is asked for in the keyspace of the status, or in none where that could not be set.
pub get_node_details-parts :
    (b : Backend) (uuid : Text) (s : Page)
    → b.connects ≡ true
    → (get_node_details b uuid s).0
      ≡ ok (
          (codes "uuid", some uuid)
          ∷ ((if b.has_keyspace swarm_keyspace
                then answered state_fields (b.state_of (some swarm_keyspace) uuid)
                else [])
              ++ (answered key_fields (b.key_of (moved b swarm_keyspace none) uuid)
                  ++ (if b.has_keyspace ks_swarm
                      then answered member_fields (b.member_of (some ks_swarm) uuid)
                      else []))))
unfolding get_node_details state_part key_part member_part set_keyspace put require gets modify
    return try_except ◌>>=◌
get_node_details-parts b uuid s h = ground (arith, h)
