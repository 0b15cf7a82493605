-- ===== src/Node/Tests.antt =====
-- Configurations at a node.
use smartedge.Base.{◌≡◌, refl, true, false, Option, none, some, [], ◌∷◌}
use smartedge.Base.{Text, codes, ◌=?◌}
use smartedge.Base.Bytes.{splitlines, strip}
use smartedge.Base.Utf8.{decode}
use smartedge.Base.Dict.{lookup}
use smartedge.Base.Exec.{ok}
use smartedge.Swarm.Io.{Process, NodeConfig, Heartbeats, update_config, go_away}
use smartedge.Coordinator.Onboard.{node_config}
use smartedge.Node.Message.{Message, text, truth, item, message_of}
use smartedge.Node.Service.{
  answer_ok, Env, Node, Self, set_access_point, run_program, emit,
  stop_heartbeat_service_if_running,
}
use smartedge.Node.Communication.{
  Connection, again, coord_ip, leave_swarm, handle_connection, handle_communication,
}
use smartedge.Node.Communication.Laws.{
  asked, configured, handle_connection-update, handle_connection-node_config,
}
use smartedge.Node.Install.Laws.{after}
use smartedge.Node.Communication.Off.{enables_heartbeats}
use smartedge.Node.Communication.Ends.{handle_communication-left, handle_communication-unreadable}

abbrev silent : Process
silent = record { stdout = []; stderr = [] }

-- The empty text cannot be read; any other stands for the message.
abbrev reader : Message → Text → Option Message
reader m [] = none
reader m (c ∷ t) = some m

abbrev env_of : Message → Env
env_of m = record {
  sh = λ _ _. silent;
  program = λ _ _. some silent;
  startable = λ _. true;
  polls_none = λ _ _. true;
  loads = reader m;
}

abbrev self : Self
self = record { self_uuid = codes "SN1"; default_ifname = codes "wlan0" }

abbrev from_coordinator : Connection
from_coordinator = record { peer = codes "10.0.255.254"; received = 123 ∷ [] }

abbrev empty : Connection
empty = record { peer = codes "10.0.1.7"; received = [] }

abbrev idle : Node
idle = record { hb_process = none; access_point_ip = []; events = [] }

abbrev config : NodeConfig
config = record {
  veth1_vip = codes "10.1.0.3";
  veth1_vmac = codes "00:00:0a:01:00:03";
  vxlan_id = some 7;
  swarm_id = 1;
  coordinator_vip = codes "10.1.255.254";
  ap_uuid = none;
  heartbeat = none;
}

abbrev hb : Heartbeats
hb = record { enabled = true; hb_length = some 100; hb_window = none; hb_interval = none }

read : decode from_coordinator.received ≡ some (123 ∷ [])
unfolding decode
read = refl

nothing : decode empty.received ≡ some []
unfolding decode
nothing = refl

handle_connection-update_example :
    handle_connection (env_of (message_of (update_config config))) self from_coordinator idle
    ≡ (ok again, after (answer_ok ∷ []) (asked from_coordinator idle))
handle_connection-update_example =
    handle_connection-update (env_of (message_of (update_config config))) self from_coordinator idle
      config (λ _. (silent, refl)) (123 ∷ [], read, refl)

-- The address of the coordinator among the stations becomes its address in the swarm.
vip_of_coordinator : coord_ip (text (codes "10.0.255.254")) ≡ ok (codes "10.1.255.254")
unfolding coord_ip codes
vip_of_coordinator = refl

handle_connection-node_config_example :
    handle_connection
      (env_of (message_of (node_config config.veth1_vip config.veth1_vmac hb)))
      self
      from_coordinator
      idle
    ≡ (
      ok again,
      configured self from_coordinator config.veth1_vip config.veth1_vmac hb
          (codes "10.1.255.254")
          idle,
    )
handle_connection-node_config_example =
    handle_connection-node_config
      (env_of (message_of (node_config config.veth1_vip config.veth1_vmac hb))) self
      from_coordinator idle config.veth1_vip config.veth1_vmac (codes "10.1.255.254") hb
      (λ _. (silent, refl)) (123 ∷ [], read, refl) (λ _. refl) refl vip_of_coordinator

abbrev leaving : Env
leaving = env_of (message_of go_away)

abbrev running : Node
running = record {
  hb_process = some (record {
    client_id = codes "SN1";
    receiver_ip = codes "10.1.255.254";
    receiver_port = 5008;
    pubkey_port = 5007;
    interval = codes "1.0";
  });
  access_point_ip = [];
  events = [];
}

went :
    handle_connection leaving self from_coordinator running
    ≡ (ok again, (handle_connection leaving self from_coordinator running).1)
unfolding handle_connection codes set_access_point run_program decode item lookup message_of ◌=?◌
    leave_swarm splitlines strip emit stop_heartbeat_service_if_running
went = refl

typed : item (codes "TYPE") (message_of go_away) ≡ ok (text (codes "go_away"))
unfolding item lookup codes message_of ◌=?◌
typed = refl

quiet : enables_heartbeats leaving from_coordinator ≡ false
unfolding enables_heartbeats decode truth lookup message_of ◌=?◌ codes
quiet = refl

handle_communication-left_example :
    (handle_communication leaving self
      (from_coordinator ∷ from_coordinator ∷ [])
      running).1.hb_process
    ≡ none
handle_communication-left_example =
    handle_communication-left leaving self from_coordinator (from_coordinator ∷ []) running
      (handle_connection leaving self from_coordinator running).1 (message_of go_away)
      (λ _. (silent, refl)) (123 ∷ [], read, refl) typed went (quiet, tt)

handle_communication-unreadable_example :
    handle_communication leaving self (from_coordinator ∷ empty ∷ from_coordinator ∷ []) idle
    ≡ handle_communication leaving self (from_coordinator ∷ empty ∷ []) idle
handle_communication-unreadable_example =
    handle_communication-unreadable leaving self empty [] (from_coordinator ∷ [])
      (from_coordinator ∷ []) idle nothing refl
