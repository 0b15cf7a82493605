-- ===== src/Gui/Requests.antt =====
-- GUI/backend/coordinator_log_server.py and cassandra_interface.py: the requests that the browser
-- makes to join and to leave, and the snapshots of the tables. The scripts, the database and the
-- processes are answers.
use smartedge.Base.{
  ℕ, ◌+◌, ltb, ◌||◌, Bool, true, false, Option, none, some, List, [], ◌∷◌, ◌++◌, ◌&&◌, ◌==◌,
}
use smartedge.Base.{Text, codes, is_empty, elem_text, if◌then◌else◌}
use smartedge.Base.Bytes.{starts_with, strip}
use smartedge.Base.Decimal.{dec}
use smartedge.Base.Exec.{Exec, ok}

-- The result of a script, where `none` is an exception such as a timeout.
pub record Script : Type 0 where
  pub returncode : ℕ
  pub stdout : Text
  pub stderr : Text

pub data Effect : Type 0 where
  run_script : List Text → Effect
  stop_server : Effect
  snapshot : Text → Effect

pub data Reply : Type 0 where
  success : Text → Reply
  failure : Reply

-- The body of a request to join; a parameter that is missing is shown as "None".
pub record JoinBody : Type 0 where
  pub uuid : Text
  pub swarm : Text
  pub heartbeat : Bool
  pub hb_length : Option ℕ
  pub hb_window : Option ℕ
  pub hb_interval : Option ℕ

abbrev str : Option ℕ → Text
str none = codes "None"
str (some n) = dec n

unfoldable pub join_arguments : JoinBody → List Text
join_arguments b =
    codes "python3"
    ∷ codes "../../tests/ac_request_nodes_to_join.py"
    ∷ b.uuid
    ∷ codes "--swarm"
    ∷ b.swarm
    ∷ codes "--heartbeat"
    ∷ (if b.heartbeat
        then codes "true"
          ∷ codes "--length"
          ∷ str b.hb_length
          ∷ codes "--window"
          ∷ str b.hb_window
          ∷ codes "--interval"
          ∷ str b.hb_interval
          ∷ []
        else codes "false" ∷ [])

abbrev reply_of : Option Script → Reply
reply_of none = failure
reply_of (some r) = if r.returncode == 0 then success (strip r.stdout) else failure

unfoldable pub request_join : (List Text → Option Script) → JoinBody → Exec (List Effect) Reply
unfolding join_arguments
request_join script b s =
    if is_empty b.uuid
    then (ok failure, s)
    else if is_empty b.swarm
    then (ok failure, s)
    else (ok (reply_of (script (join_arguments b))), s ++ run_script (join_arguments b) ∷ [])

-- The count of the rows after a leave, where `none` is -1. `session` is no name of the module, so the
-- count raises a NameError, which is caught.
abbrev pub count_after_leave : Option ℕ
count_after_leave = none

abbrev is_zero : Option ℕ → Bool
is_zero none = false
is_zero (some n) = n == 0

after_leave : Text → Script → Exec (List Effect) Reply
after_leave stopped r s =
    if is_zero count_after_leave
    then (ok (success (strip r.stdout ++ (codes " | " ++ stopped))), s ++ stop_server ∷ [])
    else (ok (success (strip r.stdout)), s)

-- `stopped` is what `stop_heartbeat_server` puts out. The identifiers of the nodes come last.
unfoldable pub request_leave :
    (List Text → Option Script) → Text → List Text → Exec (List Effect) Reply
unfolding after_leave
request_leave script stopped [] s = (ok failure, s)
request_leave script stopped ([] ∷ nids) s = (ok failure, s)
request_leave script stopped (nid ∷ nids) s =
    let args = codes "python3" ∷ codes "../../tests/ac_request_nodes_to_leave.py" ∷ nid ∷ nids in
    let t = s ++ run_script args ∷ [] in
    elim (script args) [
      | none ↦ (ok failure, t)
      | some r ↦ if r.returncode == 0 then after_leave stopped r t else (ok failure, t)
    ]

-- The rows of the catalogue that name a swarm table.
unfoldable pub swarm_tables : List Text → List Text
unfolding starts_with
swarm_tables [] = []
swarm_tables (t ∷ ts) =
    let rest = swarm_tables ts in if starts_with (codes "swarm_table") t then t ∷ rest else rest

abbrev main_tables : List Text
main_tables = codes "art" ∷ codes "swarm_table" ∷ []

others : List Text → List Text
others [] = []
others (t ∷ ts) = let rest = others ts in if elem_text t main_tables then rest else t ∷ rest

-- The tables that are broadcast; `none` is an exception of the catalogue.
unfoldable pub broadcast_tables : Option (List Text) → List Text
unfolding swarm_tables others
broadcast_tables none = main_tables
broadcast_tables (some names) = main_tables ++ others (swarm_tables names)

snapshots : (Text → Bool) → List Text → List Effect
snapshots fetched [] = []
snapshots fetched (t ∷ ts) =
    let rest = snapshots fetched ts in if fetched t then snapshot t ∷ rest else rest

-- Whether the connection succeeds, the catalogue, and whether a table can be read and sent. A table
-- that cannot is passed over.
unfoldable pub fetch_and_broadcast_data :
    Bool → Option (List Text) → (Text → Bool) → Exec (List Effect) (Unit {0})
unfolding broadcast_tables snapshots
fetch_and_broadcast_data connects names fetched s =
    (ok tt, (if connects then s ++ snapshots fetched (broadcast_tables names) else s))

-- `trigger_db_update`, with the table of its payload; the answer is whether the status is "ok".
unfoldable pub trigger_db_update :
    Bool → Option (List Text) → (Text → Bool) → Option Text → Exec (List Effect) Bool
unfolding fetch_and_broadcast_data
trigger_db_update connects names fetched none s = (ok false, s)
trigger_db_update connects names fetched (some table) s =
    if is_empty table
    then (ok false, s)
    else (ok true, (fetch_and_broadcast_data connects names fetched s).1)

-- The tables of `send_db_snapshot`.
unfoldable pub snapshot_tables : List Text → List Text
unfolding swarm_tables
snapshot_tables names = codes "art" ∷ swarm_tables names

-- `is_swarm_empty` of heartbeat_api.py, from the count, where `none` is an exception, for which the
-- swarm counts as empty.
unfoldable pub is_swarm_empty : Option (Option ℕ) → Bool
is_swarm_empty none = true
is_swarm_empty (some none) = true
is_swarm_empty (some (some n)) = n == 0

-- `a <= b` on texts.
unfoldable pub leb_text : Text → Text → Bool
leb_text [] t = true
leb_text (a ∷ s) [] = false
leb_text (a ∷ s) (b ∷ t) = ltb a b || (a == b && leb_text s t)

insert_sorted : Text → List Text → List Text
unfolding leb_text
insert_sorted t [] = t ∷ []
insert_sorted t (u ∷ us) = if leb_text t u then t ∷ u ∷ us else u ∷ insert_sorted t us

-- `sorted(texts)`
unfoldable pub sorted : List Text → List Text
unfolding insert_sorted
sorted [] = []
sorted (t ∷ ts) = insert_sorted t (sorted ts)

numbered : ℕ → List Text → List (Text × Text)
numbered i [] = []
numbered i (t ∷ ts) = (codes "Swarm " ++ dec (i + 1), t) ∷ numbered (i + 1) ts

-- `get_swarms`: the names and the tables.
unfoldable pub get_swarms : Option (List Text) → List (Text × Text)
unfolding swarm_tables sorted numbered
get_swarms none = []
get_swarms (some names) = numbered 0 (sorted (swarm_tables names))
