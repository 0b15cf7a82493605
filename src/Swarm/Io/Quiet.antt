-- ===== src/Swarm/Io/Quiet.antt =====
-- The configurations among the events, and the actions that send none.
use smartedge.Base.{
  ◌≡◌, refl, ap, ◌∙◌, Bool, true, false, List, [], ◌∷◌, ◌++◌, Text, arith, if◌then◌else◌,
}
use mathlib.Core.List.{append-nil}
use smartedge.Base.Exec.{Exec, Result, ok, raised, return, lift, proceed, ◌>>=◌}
use smartedge.Swarm.Io.{
  Event, query, notify_gui, cli, shell, send_config, reply_nodes, Config, Io, Env, run_cli_command,
  notify_gui_backend,
}

-- The configurations that were sent, each with the address that it was sent to, in their order.
unfoldable pub configs : List Event → List (Text × Config)
configs [] = []
configs (query q ∷ es) = configs es
configs (notify_gui t ∷ es) = configs es
configs (cli i c ∷ es) = configs es
configs (shell c ∷ es) = configs es
configs (send_config ip c ∷ es) = (ip, c) ∷ configs es
configs (reply_nodes ns ∷ es) = configs es

pub configs-append : (es fs : List Event) → configs (es ++ fs) ≡ configs es ++ configs fs
unfolding configs
configs-append [] fs = refl
configs-append (query q ∷ es) fs = configs-append es fs
configs-append (notify_gui t ∷ es) fs = configs-append es fs
configs-append (cli i c ∷ es) fs = configs-append es fs
configs-append (shell c ∷ es) fs = configs-append es fs
configs-append (send_config ip c ∷ es) fs = ap (◌∷◌ (ip, c)) (configs-append es fs)
configs-append (reply_nodes ns ∷ es) fs = configs-append es fs

-- No run of the action sends a configuration.
pub record Quiet {A : Type 0} (m : Exec Io A) : Type 0 where
  pub runs : (s : Io) → configs (m s).1.events ≡ configs s.events

pub bind-Quiet :
    {A B : Type 0} {m : Exec Io A} {f : A → Exec Io B}
    → Quiet m
    → ((a : A) → Quiet (f a))
    → Quiet (m >>= f)
unfolding ◌>>=◌
bind-Quiet {A} {B} {m} {f} k c = record { runs = λ s. go s (m s).0 (m s).1 (k.runs s) }
  where
    go :
        (s : Io) (r : Result A) (t : Io)
        → configs t.events ≡ configs s.events
        → configs (proceed f r t).1.events ≡ configs s.events
    go s (ok a) t h = (c a).runs t ∙ h
    go s (raised e) t h = h

module _ {A : Type 0} where
  pub return-Quiet : (a : A) → Quiet (return {S = Io} a)
  unfolding return
  return-Quiet a = record { runs = λ s. refl }

  pub lift-Quiet : (r : Result A) → Quiet (lift r)
  unfolding lift
  lift-Quiet r = record { runs = λ s. refl }

  pub if-Quiet :
      (b : Bool) {m n : Exec Io A} → Quiet m → Quiet n → Quiet (λ s. if b then m s else n s)
  if-Quiet true k l = record { runs = k.runs }
  if-Quiet false k l = record { runs = l.runs }

-- An event that is no configuration.
pub quiet_event :
    (es : List Event) (e : Event) → configs (e ∷ []) ≡ [] → configs (es ++ e ∷ []) ≡ configs es
quiet_event es e h =
    configs-append es (e ∷ []) ∙ ap (λ cs. configs es ++ cs) h ∙ append-nil (configs es)

-- A command of the switch is a single event.
pub run_cli_command-events :
    (env : Env) (c i : Text) (s : Io)
    → (run_cli_command env c i s).1.events ≡ s.events ++ cli i c ∷ []
unfolding run_cli_command
run_cli_command-events env c i s = ground arith

pub run_cli_command-Quiet : (env : Env) (c i : Text) → Quiet (run_cli_command env c i)
run_cli_command-Quiet env c i = record {
  runs = λ s.
      ap configs (run_cli_command-events env c i s)
      ∙ quiet_event s.events (cli i c) (unfold configs in refl);
}

pub notify_gui_backend-Quiet : (t : Text) → Quiet (notify_gui_backend t)
unfolding notify_gui_backend configs
notify_gui_backend-Quiet t = record { runs = λ s. quiet_event s.events (notify_gui t) refl }

-- The rules by which an action of several steps sends none.
pub ruleset being_quiet =
    (bind-Quiet, return-Quiet, lift-Quiet, run_cli_command-Quiet, notify_gui_backend-Quiet)
