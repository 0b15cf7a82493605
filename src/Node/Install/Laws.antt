-- ===== src/Node/Install/Laws.antt =====
-- What the installation of a configuration without a tunnel does.
use smartedge.Base.{◌≡◌, some, arith, List, [], ◌∷◌, ◌++◌, map}
use smartedge.Base.{Text, codes}
use smartedge.Base.Dict.{lookup}
use smartedge.Base.Exec.{ok, return, lift, ◌>>=◌}
use smartedge.Node.Message.{Message, text, item, shown}
use smartedge.Node.Service.{Env, Node, Event, shell, run_shell}
use smartedge.Node.Install.{run_shells, veth1_commands, install_config_no_update_vxlan}
use mathlib.Core.List.{append_assoc, append-nil}

-- The state after the events of a list.
abbrev pub after : List Event → Node → Node
after es s = record s { events = s.events ++ es }

pub run_shells-after :
    (env : Env) (cs : List Text) (s : Node) → run_shells env cs s ≡ (ok tt, after (map shell cs) s)
unfolding run_shells return run_shell ◌>>=◌
run_shells-after env [] s = simp (append-nil)
run_shells-after env (c ∷ cs) s = simp (run_shells-after env cs, append_assoc)

pub install-after :
    (env : Env) (m : Message) (vip vmac : Text) (s : Node)
    → lookup (codes "VETH1_VIP") m ≡ some (text vip)
    → lookup (codes "VETH1_VMAC") m ≡ some (text vmac)
    → install_config_no_update_vxlan env m s
      ≡ (ok tt, after (map shell (veth1_commands vip vmac)) s)
unfolding install_config_no_update_vxlan item lift ◌>>=◌ shown
install-after env m vip vmac s p q =
    ground (arith, p, q, run_shells-after env (veth1_commands vip vmac) s)
