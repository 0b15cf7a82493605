-- ===== src/Node/Communication/Ends.antt =====
-- What a node is like after it was sent away, and which messages end its thread.
use smartedge.Base.{◌≡◌, inl, inr, refl, sym, ◌∙◌, false, none, some, List, [], ◌∷◌, ◌++◌, arith}
use smartedge.Base.{Text, codes, ◌=?◌, All, Option-cases}
use mathlib.Core.Path.{subst}
use smartedge.Base.Utf8.{decode}
use smartedge.Base.Exec.{
  Exec, Result, ok, raised, value_error, require, proceed, os_error, ◌>>=◌, Exc,
}
use smartedge.Node.Message.{Message, text, item}
use smartedge.Node.Service.{
  Env, Node, Self, stop_heartbeat_service_if_running, run_program, set_access_point,
}
use smartedge.Node.Communication.{
  Connection, Next, again, returned, leave_swarm, dispatch, handle_connection, carry_on,
  handle_communication,
}
use smartedge.Node.Communication.Laws.{Reads, Pings, asked, handle_connection-Reads}
use smartedge.Node.Communication.Off.{
  StaysOff, enables_heartbeats, handle_communication-StaysOff, stop-none, answered-StaysOff,
}

-- Where the action succeeds, no client is left in the hands of the node.
record EndsOff {A : Type 0} (m : Exec Node A) : Type 0 where
  runs : (s t : Node) (a : A) → m s ≡ (ok a, t) → t.hb_process ≡ none

module _ {A B : Type 0} {f : A → Exec Node B} where
  -- The last action of a chain decides.
  bind-EndsOff : (m : Exec Node A) → ((a : A) → EndsOff (f a)) → EndsOff (m >>= f)
  unfolding ◌>>=◌
  bind-EndsOff m k = record { runs = λ s t b h. go t b (m s).0 (m s).1 h }
    where
      go :
          (t : Node) (b : B) (r : Result A) (u : Node)
          → proceed f r u ≡ (ok b, t)
          → t.hb_process ≡ none
      go t b (ok a) u h = (k a).runs u t b h
      go t b (raised e) u h = ground (arith, h)

  -- What follows keeps it so.
  then-EndsOff : {m : Exec Node A} → EndsOff m → ((a : A) → StaysOff (f a)) → EndsOff (m >>= f)
  unfolding ◌>>=◌
  then-EndsOff {m} k c = record { runs = λ s t b h. go s t b (m s).0 (m s).1 refl h }
    where
      go :
          (s t : Node) (b : B) (r : Result A) (u : Node)
          → m s ≡ (r, u)
          → proceed f r u ≡ (ok b, t)
          → t.hb_process ≡ none
      go s t b (ok a) u q h = subst (λ x. x.1.hb_process ≡ none) h ((c a).runs u (k.runs s u a q))
      go s t b (raised e) u q h = ground (arith, h)

stop-EndsOff : (env : Env) → EndsOff (stop_heartbeat_service_if_running env)
stop-EndsOff env = record {
  runs = λ s t a h. subst (λ x. x.1.hb_process ≡ none) h (stop-none env s);
}

leave_swarm-EndsOff : (env : Env) (self : Self) → EndsOff (leave_swarm env self)
unfolding leave_swarm
leave_swarm-EndsOff env self = search (bind-EndsOff, stop-EndsOff) depth 16

is_left :
    (env : Env) (self : Self) (c : Connection) (m : Message)
    → EndsOff (dispatch env self c.peer m (text (codes "go_away")))
unfolding dispatch codes ◌=?◌
is_left env self c m = record {
  runs = (then-EndsOff (leave_swarm-EndsOff env self) (λ _. answered-StaysOff env self m)).runs;
}

-- A node that can ping, was sent away by a readable message and answered it has no heartbeat
-- client in its hands after any further messages of which none enables heartbeats, whatever it ran
-- before.
pub handle_communication-left :
    (env : Env) (self : Self) (c : Connection) (cs : List Connection) (s t : Node) (m : Message)
    → Pings env c
    → Reads env c m
    → item (codes "TYPE") m ≡ ok (text (codes "go_away"))
    → handle_connection env self c s ≡ (ok again, t)
    → All (λ d. enables_heartbeats env d ≡ false) cs
    → (handle_communication env self (c ∷ cs) s).1.hb_process ≡ none
unfolding handle_communication ◌>>=◌ carry_on
handle_communication-left env self c cs s t m pings reads typed h quiet =
    let off =
      (is_left env self c m).runs (asked c s) t again
        (sym (handle_connection-Reads env self c m _ s pings reads typed) ∙ h) in
    subst (λ x. (proceed (carry_on (handle_communication env self cs)) x.0 x.1).1.hb_process ≡ none)
      (sym h) ((handle_communication-StaysOff env self cs quiet).runs t off)

module _ {A B : Type 0} (m : Exec Node A) where
  bind-same :
      (f g : A → Exec Node B) (s : Node)
      → ((a : A) (t : Node) → f a t ≡ g a t)
      → (m >>= f) s ≡ (m >>= g) s
  unfolding ◌>>=◌
  bind-same f g s h = go (m s).0
    where
      go : (r : Result A) → proceed f r (m s).1 ≡ proceed g r (m s).1
      go (ok a) = h a (m s).1
      go (raised e) = refl

  bind-raised :
      (f g : A → Exec Node B) (s : Node) (e : Exc) → (m s).0 ≡ raised e → (m >>= f) s ≡ (m >>= g) s
  unfolding ◌>>=◌
  bind-raised f g s e h = rw h refl

carry_on-same :
    (m n : Exec Node (Unit {0}))
    → ((t : Node) → m t ≡ n t)
    → (next : Next) (t : Node) → carry_on m next t ≡ carry_on n next t
unfolding carry_on
carry_on-same m n h again t = h t
carry_on-same m n h returned t = refl

handle_connection-unreadable :
    (env : Env) (self : Self) (c : Connection) (t : Text) (s : Node)
    → decode c.received ≡ some t
    → env.loads t ≡ none
    → (e : Exc) × ((handle_connection env self c s).0 ≡ raised e)
unfolding handle_connection set_access_point run_program require ◌>>=◌
handle_connection-unreadable env self c t s p q =
    elim (Option-cases (env.program s.events (codes "ping " ++ c.peer))) [
      | inl h ↦ (os_error, ground (arith, h))
      | inr (o, h) ↦ (value_error, ground (arith, h, p, q))
    ]

-- After a message that is text but cannot be read, such as an empty one, no later message has any
-- effect: the run is the same as without them.
pub handle_communication-unreadable :
    (env : Env) (self : Self) (c : Connection) (t : Text) (before later : List Connection)
    (s : Node)
    → decode c.received ≡ some t
    → env.loads t ≡ none
    → handle_communication env self (before ++ c ∷ later) s
      ≡ handle_communication env self (before ++ c ∷ []) s
unfolding handle_communication
handle_communication-unreadable env self c t [] later s p q =
    let stuck = handle_connection-unreadable env self c t s p q in
    bind-raised (handle_connection env self c) (carry_on (handle_communication env self later))
      (carry_on (handle_communication env self [])) s stuck.0 stuck.1
handle_communication-unreadable env self c t (d ∷ before) later s p q =
    bind-same (handle_connection env self d) _ _ s
      (carry_on-same _ _ (λ u. handle_communication-unreadable env self c t before later u p q))
