-- ===== src/Coordinator/Onboard/Configs.antt =====
-- Which configuration the onboarding of a node sends, and where.
use smartedge.Base.{
  ◌≡◌, refl, sym, ap, ◌∙◌, Bool, true, false, Option, none, some, inl, inr, Option-cases,
}
use smartedge.Base.{List, [], ◌∷◌, ◌++◌, Text, ◌=?◌}
use mathlib.Core.List.{append-nil}
use smartedge.Base.Dict.{Dict, lookup}
use smartedge.Base.Exec.{Exc, Result, ok, raised, require, lift, ◌>>=◌}
use smartedge.Address.{assign_virtual_mac_and_ip_by_host_id}
use smartedge.Swarm.Io.{Heartbeats, Config, send_config, Env}
use smartedge.Swarm.Io.Quiet.{configs, configs-append, Quiet, bind-Quiet, if-Quiet, being_quiet}
use smartedge.Swarm.Database.Quiet.{insert_node-Quiet, update_art-Quiet}
use smartedge.Swarm.Switch.Quiet.{add_entry-Quiet, add_port-Quiet}
use smartedge.Swarm.Settings.{this_swarm_subnet}
use smartedge.Swarm.Discovery.{Ap}
use smartedge.Coordinator.Onboard.{
  Co, Task, outside, append_node, node_config, replicate_entry, replicate_entries, install_node,
  finish, onboard_node,
}
use smartedge.Coordinator.Onboard.Laws.{logged, onboard-finish, onboard-unknown}

replicate_entry-Quiet : (env : Env) (vip : Text) (ap_ : Ap) → Quiet (replicate_entry env vip ap_)
unfolding replicate_entry
replicate_entry-Quiet env vip ap_ = search (being_quiet, add_entry-Quiet)

replicate_entries-Quiet :
    (env : Env) (ap_id vip : Text) (aps : Dict Ap) → Quiet (replicate_entries env ap_id vip aps)
unfolding replicate_entries
replicate_entries-Quiet env ap_id vip [] = record { runs = λ s. refl }
replicate_entries-Quiet env ap_id vip ((uuid, a) ∷ aps) =
    let rest = replicate_entries-Quiet env ap_id vip aps in
    if-Quiet (uuid =? ap_id) rest (bind-Quiet (replicate_entry-Quiet env vip a) (λ _. rest))

install_node-Quiet :
    (env : Env) (aps : Dict Ap) (t : Task) (instance_ vmac vip : Text)
    → Quiet (install_node env aps t instance_ vmac vip)
unfolding install_node
install_node-Quiet env aps t instance_ vmac vip =
    search
      (
        being_quiet, insert_node-Quiet, update_art-Quiet, add_port-Quiet, add_entry-Quiet,
        replicate_entries-Quiet,
      )
      depth 12

finish-configs :
    (env : Env) (aps : Dict Ap) (t : Task) (instance_ vmac vip : Text) (done : Bool) (s : Co)
    → configs (finish env aps t instance_ vmac vip done s).1.io.events ≡ configs s.io.events
unfolding finish append_node outside ◌>>=◌
finish-configs env aps t instance_ vmac vip false s = refl
finish-configs env aps t instance_ vmac vip true s =
    (install_node-Quiet env aps t instance_ vmac vip).runs s.io

abbrev offered : Text → Heartbeats → Option Ap → Result (Text × Text) → List (Text × Config)
offered ip hb none r = []
offered ip hb (some a) (raised e) = []
offered ip hb (some a) (ok (vmac, vip)) = (ip, node_config vip vmac hb) ∷ []

-- The configuration of a task, to the address of its node, where its access point is known and it can be given an address.
unfoldable pub offer : Dict Ap → Heartbeats → Task → List (Text × Config)
offer aps hb t =
    offered t.ip hb (lookup t.ap_id aps)
      (assign_virtual_mac_and_ip_by_host_id this_swarm_subnet t.host_id)

onboard-raised :
    (env : Env) (aps : Dict Ap) (hb : Heartbeats) (t : Task) (a : Ap) (e : Exc) (s : Co)
    → lookup t.ap_id aps ≡ some a
    → assign_virtual_mac_and_ip_by_host_id this_swarm_subnet t.host_id ≡ raised e
    → onboard_node env aps hb t s ≡ (raised e, s)
unfolding onboard_node require lift ◌>>=◌
onboard-raised env aps hb t a e s known bad = rw (known, bad) refl

sent_config :
    (ip vip vmac : Text) (hb : Heartbeats)
    → configs (send_config ip (node_config vip vmac hb) ∷ []) ≡ (ip, node_config vip vmac hb) ∷ []
unfolding configs
sent_config ip vip vmac hb = refl

known-configs :
    (env : Env) (aps : Dict Ap) (hb : Heartbeats) (t : Task) (a : Ap) (s : Co)
    → lookup t.ap_id aps ≡ some a
    → (r : Result (Text × Text))
    → assign_virtual_mac_and_ip_by_host_id this_swarm_subnet t.host_id ≡ r
    → configs (onboard_node env aps hb t s).1.io.events
      ≡ configs s.io.events ++ offered t.ip hb (some a) r
known-configs env aps hb t a s known (raised e) bad =
    ap (λ r. configs r.1.io.events) (onboard-raised env aps hb t a e s known bad)
    ∙ sym (append-nil (configs s.io.events))
known-configs env aps hb t a s known (ok (vmac, vip)) good =
    ap (λ r. configs r.1.io.events) (onboard-finish env aps hb t a vmac vip s known good)
    ∙ finish-configs env aps t a.cli_instance vmac vip
        (env.connect s.io.events t.ip (node_config vip vmac hb))
        (logged s (send_config t.ip (node_config vip vmac hb)))
    ∙ configs-append s.io.events (send_config t.ip (node_config vip vmac hb) ∷ [])
    ∙ ap (λ cs. configs s.io.events ++ cs) (sent_config t.ip vip vmac hb)

-- Whatever the database, the node and the switches answer, a task sends its offer and no other
-- configuration.
pub onboard-configs :
    (env : Env) (aps : Dict Ap) (hb : Heartbeats) (t : Task) (s : Co)
    → configs (onboard_node env aps hb t s).1.io.events ≡ configs s.io.events ++ offer aps hb t
unfolding offer
onboard-configs env aps hb t s = elim (Option-cases (lookup t.ap_id aps)) [
  | inl unknown ↦ rw unknown (
      ap (λ r. configs r.1.io.events) (onboard-unknown env aps hb t s unknown)
      ∙ sym (append-nil (configs s.io.events)))
  | inr (a, known) ↦ rw known (
      known-configs env aps hb t a s known
        (assign_virtual_mac_and_ip_by_host_id this_swarm_subnet t.host_id) refl)
]

-- The configurations of the tasks, in their order.
unfoldable pub offers : Dict Ap → Heartbeats → List Task → List (Text × Config)
offers aps hb [] = []
offers aps hb (t ∷ ts) = offer aps hb t ++ offers aps hb ts
