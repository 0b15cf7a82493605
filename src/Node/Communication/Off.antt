-- ===== src/Node/Communication/Off.antt =====
-- When no heartbeat client is in the hands of the node.
use smartedge.Base.{◌≡◌, refl, Bool, false, true, Option, none, some, List, [], ◌∷◌, arith}
use smartedge.Base.{Text, codes, All, if◌then◌else◌}
use smartedge.Base.Utf8.{decode}
use smartedge.Base.Dict.{lookup}
use smartedge.Base.Exec.{
  Exc, Exec, Result, ok, raised, value_error, return, lift, require, gets, try_except, proceed,
  ◌>>=◌,
}
use smartedge.Node.Message.{Message, Json, truth}
use smartedge.Node.Service.{
  Event, Env, Node, Self, stop_heartbeat_service_if_running, run_shell, run_program,
  set_access_point, emit,
}
use smartedge.Node.Install.{
  run_shells, run_programs, install_config_no_update_vxlan, install_swarm_node_config,
}
use smartedge.Node.Communication.{
  Connection, Next, again, returned, answered, heartbeat_service, set_config, leave_swarm, dispatch,
  handle_connection, carry_on, handle_communication,
}

-- The action does not put a client into the hands of the node.
pub record StaysOff {A : Type 0} (m : Exec Node A) : Type 0 where
  pub runs : (s : Node) → s.hb_process ≡ none → (m s).1.hb_process ≡ none

module _ {A B : Type 0} {f : A → Exec Node B} where
  bind-StaysOff : {m : Exec Node A} → StaysOff m → ((a : A) → StaysOff (f a)) → StaysOff (m >>= f)
  unfolding ◌>>=◌
  bind-StaysOff {m} k c = record { runs = λ s h. go (m s).0 (m s).1 (k.runs s h) }
    where
      go : (r : Result A) (t : Node) → t.hb_process ≡ none → (proceed f r t).1.hb_process ≡ none
      go (ok a) t h = (c a).runs t h
      go (raised e) t h = h

  require-StaysOff :
      (e : Exc) (o : Option A)
      → ((a : A) → o ≡ some a → StaysOff (f a))
      → StaysOff (require e o >>= f)
  unfolding ◌>>=◌ require
  require-StaysOff e none c = record { runs = λ s h. h }
  require-StaysOff e (some a) c = record { runs = λ s h. (c a refl).runs s h }

module _ {A : Type 0} where
  lift-StaysOff : (r : Result A) → StaysOff (lift r)
  unfolding lift
  lift-StaysOff r = record { runs = λ s h. h }

  return-StaysOff : (a : A) → StaysOff (return {S = Node} a)
  unfolding return
  return-StaysOff a = record { runs = λ s h. h }

  gets-StaysOff : (g : Node → A) → StaysOff (gets g)
  unfolding gets
  gets-StaysOff g = record { runs = λ s h. h }

  try-StaysOff :
      {m : Exec Node A} {h : Exc → Exec Node A}
      → StaysOff m
      → ((e : Exc) → StaysOff (h e))
      → StaysOff (try_except m h)
  unfolding try_except
  try-StaysOff {m} {h} k c = record { runs = λ s p. go (m s).0 (m s).1 (k.runs s p) }
    where
      go :
          (r : Result A) (t : Node)
          → t.hb_process ≡ none
          → (elim r as (λ _. Result A × Node) [ ok a ↦ (ok a, t) | raised e ↦ h e t ]).1.hb_process
            ≡ none
      go (ok a) t q = q
      go (raised e) t q = (c e).runs t q

  if-StaysOff :
      (b : Bool) {m n : Exec Node A}
      → StaysOff m
      → StaysOff n
      → StaysOff (λ s. if b then m s else n s)
  if-StaysOff true k c = k
  if-StaysOff false k c = c

run_shell-StaysOff : (env : Env) (c : Text) → StaysOff (run_shell env c)
unfolding run_shell
run_shell-StaysOff env c = record { runs = λ s h. h }

run_program-StaysOff : (env : Env) (c : Text) → StaysOff (run_program env c)
unfolding run_program
run_program-StaysOff env c = record { runs = λ s h. ground (arith, h) }

emit-StaysOff : (e : Event) → StaysOff (emit e)
unfolding emit
emit-StaysOff e = record { runs = λ s h. h }

set_access_point-StaysOff : (ip : Text) → StaysOff (set_access_point ip)
unfolding set_access_point
set_access_point-StaysOff ip = record { runs = λ s h. h }

-- Whatever ran before.
pub stop-none :
    (env : Env) (s : Node) → (stop_heartbeat_service_if_running env s).1.hb_process ≡ none
unfolding stop_heartbeat_service_if_running
stop-none env s = ground arith

stop-StaysOff : (env : Env) → StaysOff (stop_heartbeat_service_if_running env)
stop-StaysOff env = record { runs = λ s h. stop-none env s }

ruleset staying_off = (
  bind-StaysOff, lift-StaysOff, return-StaysOff, gets-StaysOff, try-StaysOff, if-StaysOff,
  run_shell-StaysOff, run_program-StaysOff, emit-StaysOff, set_access_point-StaysOff, stop-StaysOff,
)

run_shells-StaysOff : (env : Env) (cs : List Text) → StaysOff (run_shells env cs)
unfolding run_shells
run_shells-StaysOff env [] = search staying_off
run_shells-StaysOff env (c ∷ cs) =
    bind-StaysOff (run_shell-StaysOff env c) (λ _. run_shells-StaysOff env cs)

run_programs-StaysOff : (env : Env) (cs : List Text) → StaysOff (run_programs env cs)
unfolding run_programs
run_programs-StaysOff env [] = search staying_off
run_programs-StaysOff env (c ∷ cs) =
    bind-StaysOff (run_program-StaysOff env c) (λ _. run_programs-StaysOff env cs)

module _ (env : Env) (self : Self) (m : Message) where
  install_config-StaysOff : StaysOff (install_config_no_update_vxlan env m)
  unfolding install_config_no_update_vxlan
  install_config-StaysOff = search (staying_off, run_shells-StaysOff) depth 12

  install_swarm-StaysOff : StaysOff (install_swarm_node_config env self m)
  unfolding install_swarm_node_config
  install_swarm-StaysOff = search (staying_off, run_shells-StaysOff, run_programs-StaysOff) depth 20

  set_config-StaysOff :
      (peer : Text)
      → truth (lookup (codes "heartbeat") m) ≡ false
      → StaysOff (set_config env self peer m)
  unfolding set_config heartbeat_service
  set_config-StaysOff peer h =
      bind-StaysOff (if-StaysOff _ install_swarm-StaysOff install_config-StaysOff)
        (λ _. record { runs = λ s p. rw h (stop-none env s) })

  pub leave_swarm-StaysOff : StaysOff (leave_swarm env self)
  unfolding leave_swarm
  leave_swarm-StaysOff = search staying_off depth 20

  pub answered-StaysOff : StaysOff answered
  unfolding answered
  answered-StaysOff = search staying_off depth 8

  dispatch-StaysOff :
      (peer : Text) (type : Json)
      → truth (lookup (codes "heartbeat") m) ≡ false
      → StaysOff (dispatch env self peer m type)
  unfolding dispatch
  dispatch-StaysOff peer type h =
      if-StaysOff _
        (try-StaysOff (bind-StaysOff (set_config-StaysOff peer h) (λ _. answered-StaysOff))
          (λ _. return-StaysOff returned))
        (if-StaysOff _ (bind-StaysOff leave_swarm-StaysOff (λ _. answered-StaysOff))
          answered-StaysOff)

-- The message can be read, and its heartbeats are on.
unfoldable pub enables_heartbeats : Env → Connection → Bool
enables_heartbeats env c = elim (decode c.received) [
  | none ↦ false
  | some t ↦ elim (env.loads t) [ none ↦ false | some m ↦ truth (lookup (codes "heartbeat") m) ]
]

pub carry_on-StaysOff :
    {rest : Exec Node (Unit {0})} → StaysOff rest → (next : Next) → StaysOff (carry_on rest next)
unfolding carry_on
carry_on-StaysOff k again = k
carry_on-StaysOff k returned = return-StaysOff tt

module _ (env : Env) (self : Self) where
  handle_connection-StaysOff :
      (c : Connection) → enables_heartbeats env c ≡ false → StaysOff (handle_connection env self c)
  unfolding handle_connection enables_heartbeats
  handle_connection-StaysOff c h = bind-StaysOff (set_access_point-StaysOff c.peer) (λ _.
      bind-StaysOff (run_program-StaysOff env _) (λ _.
        require-StaysOff value_error (decode c.received) (λ t p.
          require-StaysOff value_error (env.loads t) (λ m q.
            bind-StaysOff (lift-StaysOff _)
              (λ type. dispatch-StaysOff env self m c.peer type (ground (arith, h, p, q)))))))

  pub handle_communication-StaysOff :
      (cs : List Connection)
      → All (λ c. enables_heartbeats env c ≡ false) cs
      → StaysOff (handle_communication env self cs)
  unfolding handle_communication
  handle_communication-StaysOff [] h = return-StaysOff tt
  handle_communication-StaysOff (c ∷ cs) (h, hs) =
      bind-StaysOff (handle_connection-StaysOff c h)
        (carry_on-StaysOff (handle_communication-StaysOff cs hs))
