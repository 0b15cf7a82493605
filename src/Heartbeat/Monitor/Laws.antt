-- ===== src/Heartbeat/Monitor/Laws.antt =====
-- What every round of the control loop preserves.
use smartedge.Base.{◌≡◌, refl, true, not, Option, none, some, ◌||◌, arith}
use smartedge.Base.{Text, is_some, if◌then◌else◌, Bool-cases, inl, inr}
use smartedge.Heartbeat.Monitor.{
  JoinState, Target, Monitor, Answers, handle_leave, has_moved, start, ensure, follow, target_of,
  joined_round, address, round,
}

-- A process has its target and its keys.
pub record IsSound (m : Monitor) : Type 0 where
  pub target : (not m.hb_proc || is_some m.running_for) ≡ true
  pub keys : (not m.hb_proc || m.has_keys) ≡ true

handle_leave-IsSound : (m : Monitor) → IsSound (handle_leave m)
unfolding handle_leave
handle_leave-IsSound m = record { target = refl; keys = refl }

ensure-IsSound : (a : Answers) (t : Target) (m : Monitor) → IsSound m → IsSound (ensure a t m)
unfolding ensure start
ensure-IsSound a t m s = record { target = ground (arith, s.target); keys = ground (arith, s.keys) }

follow-IsSound : (a : Answers) (t : Target) (m : Monitor) → IsSound m → IsSound (follow a t m)
unfolding follow
follow-IsSound a t m s = elim (Bool-cases (has_moved m.running_for t)) [
  | inl h ↦ rw (h) (ensure-IsSound a t (handle_leave m) (handle_leave-IsSound m))
  | inr h ↦ rw (h) (ensure-IsSound a t m s)
]

joined-IsSound :
    (a : Answers) (j : JoinState) (ip : Option Text) (m : Monitor)
    → IsSound m
    → IsSound (joined_round a j ip m)
unfolding joined_round
joined-IsSound a j none m s = s
joined-IsSound a j (some ip) m s = follow-IsSound a (target_of j ip) m s

left-IsSound :
    (m : Monitor)
    → IsSound m
    → IsSound (if m.hb_proc || is_some m.running_for then handle_leave m else m)
left-IsSound m s = elim (Bool-cases (m.hb_proc || is_some m.running_for)) [
  | inl h ↦ rw (h) (handle_leave-IsSound m)
  | inr h ↦ rw (h) s
]

-- A round of the control loop preserves that a sending process has its target and its key files,
-- whatever the state file, the process, the key generator and the coordinator answer.
pub round-IsSound : (a : Answers) (j : JoinState) (m : Monitor) → IsSound m → IsSound (round a j m)
unfolding round
round-IsSound a j m s = elim (Bool-cases j.joined) [
  | inl h ↦ rw (h) (joined-IsSound a j (address j.ap_swarm_ip) m s)
  | inr h ↦ rw (h) (left-IsSound m s)
]
