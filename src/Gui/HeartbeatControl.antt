-- ===== src/Gui/HeartbeatControl.antt =====
-- GUI/backend/heartbeat_api.py: the endpoints that start and stop the heartbeat server, and the
-- time limit that coordinator/heartbeat_server.py takes from its command line. The processes of the
-- system are answers.
pub mod Laws
use smartedge.Base.{
  ℕ, zero, suc, Bool, true, false, Option, none, some, List, [], ◌∷◌, ◌&&◌, Text, codes, leb,
}
use smartedge.Base.{if◌then◌else◌, is_some}
use smartedge.Base.Decimal.{ℤ, pos, negsuc, dec, int}

-- What the request has for `lost_limit`.
pub data LostLimit : Type 0 where
  missing other : LostLimit
  number : ℤ → LostLimit
  text : Text → LostLimit

-- `int(data.get("lost_limit", 5))`, where `none` is an exception.
unfoldable pub limit_of : LostLimit → Option ℤ
limit_of missing = some (pos 5)
limit_of other = none
limit_of (number i) = some i
limit_of (text t) = int t

-- `_HB_PROCESS`, as the argument that the process was started with.
abbrev pub Tracked : Type 0
Tracked = Option Text

-- `poll() is None`; the return code of `pgrep`, or its exception; whether `Popen` succeeds; whether
-- the process can be killed, through its group or itself; whether `pkill` can be run.
pub record System : Type 0 where
  pub polls_none : Bool
  pub pgrep : Option ℕ
  pub popen : Bool
  pub killed : Bool
  pub pkill : Bool

pub data Reply : Type 0 where
  out_of_range invalid already_tracked already_detected failed stopped stopped_fallback : Reply
  started : ℕ → Reply

abbrev running : System → Tracked → Bool
running sys tracked = is_some tracked && sys.polls_none

abbrev found : Option ℕ → Bool
found (some zero) = true
found _ = false

start_new : System → ℕ → Tracked → Reply × Tracked
start_new sys limit tracked =
    if sys.popen then (started limit, some (dec limit)) else (failed, none)

start_checked : System → ℕ → Tracked → Reply × Tracked
unfolding start_new
start_checked sys limit tracked =
    if running sys tracked
    then (already_tracked, tracked)
    else if found sys.pgrep
    then (already_detected, tracked)
    else start_new sys limit tracked

-- `1 <= lost_limit <= 10`
in_range : System → ℤ → Tracked → Reply × Tracked
unfolding start_checked
in_range sys (negsuc n) tracked = (out_of_range, tracked)
in_range sys (pos n) tracked =
    if leb 1 n && leb n 10 then start_checked sys n tracked else (out_of_range, tracked)

unfoldable pub start_heartbeat_server : System → LostLimit → Tracked → Reply × Tracked
unfolding limit_of in_range
start_heartbeat_server sys l tracked = elim (limit_of l) [
  | none ↦ (invalid, tracked)
  | some i ↦ in_range sys i tracked
]

unfoldable pub stop_heartbeat_server : System → Tracked → Reply × Tracked
stop_heartbeat_server sys tracked =
    if running sys tracked
    then if sys.killed then (stopped, none) else (failed, tracked)
    else if sys.pkill
    then (stopped_fallback, tracked)
    else (failed, tracked)

unfoldable pub heartbeat_server_status : System → Tracked → Bool
heartbeat_server_status sys tracked = if running sys tracked then true else found sys.pgrep

-- A request, with what the system answers to it.
pub data Request : Type 0 where
  start_request : System → LostLimit → Request
  stop_request : System → Request

-- The requests one after the other.
unfoldable pub requests : List Request → Tracked → Tracked
requests [] tracked = tracked
requests (start_request sys l ∷ rs) tracked = requests rs (start_heartbeat_server sys l tracked).1
requests (stop_request sys ∷ rs) tracked = requests rs (stop_heartbeat_server sys tracked).1

-- `HEARTBEAT_TIMEOUT`, from the first argument and from the environment variable, whose default is
-- "7". `none` is an exception.
unfoldable pub heartbeat_timeout : Option Text → Option Text → Option ℤ
heartbeat_timeout argument variable =
    let default : Option ℤ = elim variable [ none ↦ int (codes "7") | some t ↦ int t ] in
    elim argument [ none ↦ default | some t ↦ elim (int t) [ none ↦ default | some i ↦ some i ] ]
