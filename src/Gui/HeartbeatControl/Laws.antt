-- ===== src/Gui/HeartbeatControl/Laws.antt =====
-- The time limits that a server is started with.
use smartedge.Base.{
  ℕ, ◌≤◌, ◌≡◌, refl, ap, ◌∙◌, Option, none, some, List, [], ◌∷◌, Text, arith, true, ◌&&◌, leb,
  Bool-cases, inl, inr,
}
use mathlib.Core.Path.{subst}
use smartedge.Base.Decimal.{ℤ, pos, negsuc, dec, int-dec}
use smartedge.Gui.HeartbeatControl.{
  LostLimit, Tracked, System, Reply, invalid, Request, start_request, stop_request, requests,
  running, found, stop_heartbeat_server, start_new, start_checked, in_range, limit_of,
  start_heartbeat_server, heartbeat_timeout,
}

-- Whether a tracked process, where there is one, was given a limit from 1 to 10.
abbrev pub IsLimited : Tracked → Type 0
IsLimited none = Unit
IsLimited (some t) = (n : ℕ) × (t ≡ dec n) × (1 ≤ n) × (n ≤ 10)

start-IsLimited :
    (sys : System) (l : LostLimit) (tracked : Tracked)
    → IsLimited tracked
    → IsLimited (start_heartbeat_server sys l tracked).1
unfolding start_heartbeat_server in_range start_checked start_new
start-IsLimited sys l tracked h = go (limit_of l)
  where
    new : (n : ℕ) → (leb 1 n && leb n 10) ≡ true → IsLimited (start_new sys n tracked).1
    new n k = elim (Bool-cases sys.popen) [
      | inl opened ↦ rw opened (n, refl, ground (arith, k), ground (arith, k))
      | inr refused ↦ rw refused tt
    ]

    started_with :
        (n : ℕ) → (leb 1 n && leb n 10) ≡ true → IsLimited (start_checked sys n tracked).1
    started_with n k = elim (Bool-cases (running sys tracked)) [
      | inl tracked_runs ↦ rw tracked_runs h
      | inr gone ↦ elim (Bool-cases (found sys.pgrep)) [
        | inl detected ↦ rw (gone, detected) h
        | inr absent ↦ rw (gone, absent) (new n k)
      ]
    ]

    ranged : (i : ℤ) → IsLimited (in_range sys i tracked).1
    ranged (negsuc n) = h
    ranged (pos n) = elim (Bool-cases (leb 1 n && leb n 10)) [
      | inl inside ↦ rw inside (started_with n inside)
      | inr outside ↦ rw outside h
    ]

    go :
        (o : Option ℤ)
        → IsLimited
            (elim o as (λ _. Reply × Tracked) [
              | none ↦ (invalid, tracked)
              | some i ↦ in_range sys i tracked
            ]).1
    go none = h
    go (some i) = ranged i

stop-IsLimited :
    (sys : System) (tracked : Tracked)
    → IsLimited tracked
    → IsLimited (stop_heartbeat_server sys tracked).1
unfolding stop_heartbeat_server
stop-IsLimited sys tracked h = elim (Bool-cases (running sys tracked)) [
  | inl runs ↦ elim (Bool-cases sys.killed) [
    | inl dead ↦ rw (runs, dead) tt
    | inr alive ↦ rw (runs, alive) h
  ]
  | inr gone ↦ elim (Bool-cases sys.pkill) [
    | inl done ↦ rw (gone, done) h
    | inr refused ↦ rw (gone, refused) h
  ]
]

requests-IsLimited :
    (rs : List Request) (tracked : Tracked) → IsLimited tracked → IsLimited (requests rs tracked)
unfolding requests
requests-IsLimited [] tracked h = h
requests-IsLimited (start_request sys l ∷ rs) tracked h =
    requests-IsLimited rs (start_heartbeat_server sys l tracked).1 (start-IsLimited sys l tracked h)
requests-IsLimited (stop_request sys ∷ rs) tracked h =
    requests-IsLimited rs (stop_heartbeat_server sys tracked).1 (stop-IsLimited sys tracked h)

timeout-dec :
    (n : ℕ) (variable : Option Text) → heartbeat_timeout (some (dec n)) variable ≡ some (pos n)
unfolding heartbeat_timeout
timeout-dec n variable = ground (arith, int-dec n)

-- Whatever requests to start and to stop were made, and whatever the system answered, the argument
-- of a heartbeat server that is tracked makes its timeout a number from 1 to 10.
pub requests-timeout :
    (rs : List Request) (argument : Text) (variable : Option Text)
    → requests rs none ≡ some argument
    → (n : ℕ) × (heartbeat_timeout (some argument) variable ≡ some (pos n)) × (1 ≤ n) × (n ≤ 10)
requests-timeout rs argument variable h =
    let (n, text, low, high) = subst IsLimited h (requests-IsLimited rs none tt) in
    (n, ap (λ t. heartbeat_timeout (some t) variable) text ∙ timeout-dec n variable, low, high)
