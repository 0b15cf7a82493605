-- ===== src/Heartbeat/Monitor.antt =====
-- node_manager/heartbeat/heartbeat_monitor.py: the loop that starts and stops the sender, one round
-- at a time. What the process, the key generator and the coordinator answer in a round are
-- arguments; a generation that fails counts as having written nothing.
pub mod Laws
use smartedge.Base.{ℕ, ◌+◌, ◌*◌, Bool, true, false, not, Option, none, some, List, [], ◌∷◌, ◌++◌}
use smartedge.Base.{◌&&◌, ◌||◌, ◌==◌, leb, Text, codes, ◌=?◌, is_some, or_default, if◌then◌else◌}
use smartedge.Base.Bytes.{split}

-- The fields of the state file; ports and intervals are numbers.
pub record JoinState : Type 0 where
  pub joined : Bool
  pub client_id : Option Text
  pub ap_swarm_ip : Option Text
  pub hb_udp_port : Option ℕ
  pub hb_interval : Option ℕ

pub record Target : Type 0 where
  pub client_id : Text
  pub coord_ip : Text
  pub udp_port : ℕ
  pub interval : ℕ

-- `HB_PROC` as whether there is a process, `RUNNING_FOR`, whether the key files exist, and `backoff`.
pub record Monitor : Type 0 where
  pub hb_proc : Bool
  pub running_for : Option Target
  pub has_keys : Bool
  pub backoff : ℕ

-- What happens in a round: whether the process is alive, whether the generator succeeds, and whether
-- the coordinator acknowledges the key.
pub record Answers : Type 0 where
  pub is_alive : Bool
  pub generates : Bool
  pub acknowledges : Bool

abbrev default_coord_ip : Text
default_coord_ip = codes "10.1.255.254"

dotted : List Text → Text
dotted [] = []
dotted (p ∷ []) = p
dotted (p ∷ q ∷ ps) = p ++ b'.' ∷ dotted (q ∷ ps)

from_parts : List Text → Text
unfolding dotted
from_parts (a ∷ b ∷ ps) =
    if a =? codes "10" && b =? codes "0" then dotted (a ∷ codes "1" ∷ ps) else default_coord_ip
from_parts _ = default_coord_ip

-- A text with fewer than two parts raises, with the same result.
unfoldable pub derive_coordinator_ip : Text → Text
unfolding from_parts
derive_coordinator_ip ap_swarm_ip = from_parts (split b'.' ap_swarm_ip)

-- `stop_heartbeat`, `cleanup_keys`, and the target forgotten.
unfoldable pub handle_leave : Monitor → Monitor
handle_leave m = record m { hb_proc = false; has_keys = false; running_for = none }

text_eq : Target → Target → Bool
text_eq a b =
    a.client_id =? b.client_id
    && a.coord_ip =? b.coord_ip
    && a.udp_port == b.udp_port
    && a.interval == b.interval

-- `RUNNING_FOR and target != RUNNING_FOR`
has_moved : Option Target → Target → Bool
unfolding text_eq
has_moved none t = false
has_moved (some old) t = not (text_eq t old)

abbrev longer : Monitor → Monitor
longer m = record m { backoff = if leb (m.backoff * 2) 15 then m.backoff * 2 else 15 }

-- The body of `if HB_PROC is None or not HB_PROC.is_alive()`.
start : Answers → Target → Monitor → Monitor
start a t m =
    let keyed = record m { has_keys = true } in
    let running = record keyed { hb_proc = true; running_for = some t; backoff = 1 } in
    if not a.generates then longer m else if not a.acknowledges then longer keyed else running

ensure : Answers → Target → Monitor → Monitor
unfolding start
ensure a t m = if m.hb_proc && a.is_alive then m else start a t m

follow : Answers → Target → Monitor → Monitor
unfolding ensure has_moved
follow a t m = if has_moved m.running_for t then ensure a t (handle_leave m) else ensure a t m

-- `if not ap_ip`, which a missing and an empty address fail.
abbrev address : Option Text → Option Text
address (some (c ∷ cs)) = some (c ∷ cs)
address _ = none

target_of : JoinState → Text → Target
unfolding derive_coordinator_ip
target_of j ap_ip = record {
  client_id = or_default j.client_id (codes "CLIENT_ID_PLACEHOLDER");
  coord_ip = derive_coordinator_ip ap_ip;
  udp_port = or_default j.hb_udp_port 5008;
  interval = or_default j.hb_interval 1;
}

joined_round : Answers → JoinState → Option Text → Monitor → Monitor
unfolding follow target_of
joined_round a j none m = m
joined_round a j (some ip) m = follow a (target_of j ip) m

-- One round of `loop`; an unreadable state file counts as not joined.
unfoldable pub round : Answers → JoinState → Monitor → Monitor
unfolding joined_round handle_leave
round a j m =
    let left = if m.hb_proc || is_some m.running_for then handle_leave m else m in
    if j.joined then joined_round a j (address j.ap_swarm_ip) m else left
