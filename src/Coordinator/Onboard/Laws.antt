-- ===== src/Coordinator/Onboard/Laws.antt =====
-- The onboarding of a node up to its configuration, and on its ways to fail.
use smartedge.Base.{◌≡◌, refl, ap, ◌∙◌, false, none, some}
use smartedge.Base.{[], ◌∷◌, ◌++◌, Text}
use smartedge.Base.Dict.{Dict, lookup}
use smartedge.Base.Exec.{ok, raised, key_error, require, lift, ◌>>=◌}
use smartedge.Address.{assign_virtual_mac_and_ip_by_host_id}
use smartedge.Swarm.Io.{Heartbeats, send_config, Event, Env}
use smartedge.Swarm.Settings.{this_swarm_subnet}
use smartedge.Swarm.Discovery.{Ap}
use smartedge.Coordinator.Onboard.{Co, Task, deliver_config, node_config, finish, onboard_node}

-- A state after one more event.
abbrev pub logged : Co → Event → Co
logged s e = record s { io = record s.io { events = s.io.events ++ e ∷ [] } }

-- Up to the delivery of the configuration.
pub onboard-finish :
    (env : Env) (aps : Dict Ap) (hb : Heartbeats) (t : Task) (a : Ap) (vmac vip : Text) (s : Co)
    → lookup t.ap_id aps ≡ some a
    → assign_virtual_mac_and_ip_by_host_id this_swarm_subnet t.host_id ≡ ok (vmac, vip)
    → onboard_node env aps hb t s
      ≡ finish env aps t a.cli_instance vmac vip
          (env.connect s.io.events t.ip (node_config vip vmac hb))
          (logged s (send_config t.ip (node_config vip vmac hb)))
unfolding onboard_node deliver_config ◌>>=◌ require lift
onboard-finish env aps hb t a vmac vip s known address = rw (known, address) refl

-- A node of a known access point that cannot be sent its configuration raises nothing, and gets
-- no row, no port and no rule: the attempt is all that happened.
pub onboard-unreachable :
    (env : Env) (aps : Dict Ap) (hb : Heartbeats) (t : Task) (a : Ap) (vmac vip : Text) (s : Co)
    → lookup t.ap_id aps ≡ some a
    → assign_virtual_mac_and_ip_by_host_id this_swarm_subnet t.host_id ≡ ok (vmac, vip)
    → env.connect s.io.events t.ip (node_config vip vmac hb) ≡ false
    → onboard_node env aps hb t s ≡ (ok tt, logged s (send_config t.ip (node_config vip vmac hb)))
unfolding finish
onboard-unreachable env aps hb t a vmac vip s known address silent =
    onboard-finish env aps hb t a vmac vip s known address
    ∙ ap
        (λ done.
          finish env aps t a.cli_instance vmac vip done
            (logged s (send_config t.ip (node_config vip vmac hb))))
        silent

-- A node whose access point is not known raises before anything is done for it.
pub onboard-unknown :
    (env : Env) (aps : Dict Ap) (hb : Heartbeats) (t : Task) (s : Co)
    → lookup t.ap_id aps ≡ none
    → onboard_node env aps hb t s ≡ (raised key_error, s)
unfolding onboard_node ◌>>=◌ require
onboard-unknown env aps hb t s unknown = rw (unknown) refl
