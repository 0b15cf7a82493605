-- ===== src/Node/Communication/Laws.antt =====
-- Which messages a node carries out, which it only answers, and which end the thread.
use smartedge.Base.{
  ◌≡◌, refl, ap, ◌∙◌, Bool, not, ◌&&◌, Option, true, false, none, some, List, [], ◌∷◌, ◌++◌, map,
  arith,
}
use smartedge.Base.{Text, codes, ◌=?◌, if◌then◌else◌}
use smartedge.Base.Utf8.{decode}
use smartedge.Base.Dict.{lookup}
use smartedge.Base.Exec.{ok, return, lift, require, try_except, ◌>>=◌}
use smartedge.Swarm.Io.{Process, NodeConfig, Heartbeats, update_config}
use smartedge.Coordinator.Onboard.{node_config}
use smartedge.Node.Message.{Message, Json, boolean, text, hb_parameters, truth, item, message_of}
use smartedge.Node.Service.{
  Event, shell, command, start, answer_ok, Env, Node, Self, is_running, start_heartbeat_service,
  stop_heartbeat_service_if_running, run_program, set_access_point, emit,
}
use smartedge.Node.Install.{veth1_commands}
use smartedge.Node.Install.Laws.{after, install-after}
use smartedge.Node.Communication.{
  Connection, again, coord_ip, ap_ip_of, client_of, set_config, dispatch, handle_connection,
}

-- The message of a connection can be read.
abbrev pub Reads : Env → Connection → Message → Type 0
Reads env c m = (t : Text) × (decode c.received ≡ some t) × (env.loads t ≡ some m)

-- `ping` can be run at any time.
abbrev pub Pings : Env → Connection → Type 0
Pings env c =
    (before : List Event) → (p : Process) × (env.program before (codes "ping " ++ c.peer) ≡ some p)

-- The state when the message is looked at.
abbrev pub asked : Connection → Node → Node
asked c s = after (command (codes "ping " ++ c.peer) ∷ []) (record s { access_point_ip = c.peer })

module _ (env : Env) (self : Self) (c : Connection) (m : Message) (type : Json) (s : Node)
    (pings : Pings env c) (reads : Reads env c m) (typed : item (codes "TYPE") m ≡ ok type) where
  pub handle_connection-Reads :
      handle_connection env self c s ≡ dispatch env self c.peer m type (asked c s)
  unfolding handle_connection set_access_point run_program require lift ◌>>=◌
  handle_connection-Reads = ground (arith, (pings s.events).1, reads.1, reads.2, typed)

-- A readable configuration of the kind that an access point sends to a node of a swarm is answered
-- by a node that can ping, and nothing of it is installed.
pub handle_connection-update :
    (env : Env) (self : Self) (c : Connection) (s : Node) (config : NodeConfig)
    → Pings env c
    → Reads env c (message_of (update_config config))
    → handle_connection env self c s ≡ (ok again, after (answer_ok ∷ []) (asked c s))
unfolding dispatch item lookup codes message_of emit ◌=?◌
handle_connection-update env self c s config pings reads =
    handle_connection-Reads env self c _ _ s pings reads refl

-- What a configuration of the coordinator leaves: the five commands, and the client where the
-- heartbeats are enabled.
abbrev pub configured : Self → Connection → Text → Text → Heartbeats → Text → Node → Node
configured self c vip vmac hb ip s =
    let t = after (map shell (veth1_commands vip vmac)) (asked c s) in
    after (answer_ok ∷ []) (
      if hb.enabled
      then record (after (start (client_of self ip) ∷ []) t) {
        hb_process = some (client_of self ip);
      }
      else t)

-- A key that is none of the parameters of heartbeats.
other_key : Text → Bool
other_key k =
    not (k =? codes "hb_length") && not (k =? codes "hb_window") && not (k =? codes "hb_interval")

lookup-hb_parameters :
    (k : Text) (hb : Heartbeats) → other_key k ≡ true → lookup k (hb_parameters hb) ≡ none
unfolding lookup hb_parameters other_key
lookup-hb_parameters k hb h = ground (arith, h)

module _ (env : Env) (self : Self) (peer : Text) (m : Message) (vip vmac ip : Text) (b : Bool)
    (s : Node) (startable : (before : List Event) → env.startable before ≡ true)
    (off : s.hb_process ≡ none) (there : coord_ip (ap_ip_of m peer) ≡ ok ip)
    (vip_there : lookup (codes "VETH1_VIP") m ≡ some (text vip))
    (vmac_there : lookup (codes "VETH1_VMAC") m ≡ some (text vmac))
    (no_tunnel : lookup (codes "VXLAN_ID") m ≡ none)
    (asks : lookup (codes "heartbeat") m ≡ some (boolean b)) where
  set_config-after : set_config env self peer m s ≡ (
      let t = after (map shell (veth1_commands vip vmac)) s in
      (
        ok tt,
        (if b
            then record (after (start (client_of self ip) ∷ []) t) {
              hb_process = some (client_of self ip);
            }
            else t),
      ))
  unfolding set_config lift start_heartbeat_service stop_heartbeat_service_if_running is_running
      truth
  set_config-after =
      rw (no_tunnel, install-after env m vip vmac s vip_there vmac_there, asks, there)
        (ground (arith, off, startable (after (map shell (veth1_commands vip vmac)) s).events))

dispatch-set_config :
    (env : Env) (self : Self) (peer : Text) (m : Message) (s t : Node)
    → set_config env self peer m s ≡ (ok tt, t)
    → dispatch env self peer m (text (codes "SET_CONFIG")) s ≡ (ok again, after (answer_ok ∷ []) t)
unfolding dispatch codes ◌=?◌ emit return try_except ◌>>=◌
dispatch-set_config env self peer m s t h = ground (arith, h)

same_enabled :
    (hb : Heartbeats)
    → ◌≡◌ {A = Option Json}
        (some (
          boolean
            (if hb.enabled then hb else record {
              enabled = false;
              hb_length = none;
              hb_window = none;
              hb_interval = none;
            }).enabled))
        (some (boolean hb.enabled))
same_enabled hb = ground arith

module _ (vip vmac : Text) (hb : Heartbeats) where
  no_tunnel : lookup (codes "VXLAN_ID") (message_of (node_config vip vmac hb)) ≡ none
  unfolding lookup codes ◌=?◌ message_of node_config other_key
  no_tunnel = lookup-hb_parameters (codes "VXLAN_ID") _ refl

  ap_ip_of-node_config :
      (peer : Text) → ap_ip_of (message_of (node_config vip vmac hb)) peer ≡ text peer
  unfolding lookup codes ◌=?◌ message_of node_config other_key ap_ip_of truth
  ap_ip_of-node_config peer =
      rw
        (
          lookup-hb_parameters (codes "AP_SWARM_IP") _ refl,
          lookup-hb_parameters (codes "HB_DST_IP") _ refl,
        )
        refl

-- A readable configuration of the coordinator runs exactly the five commands on veth1 and is
-- answered, at a node that runs no heartbeat client and can start one and ping; where heartbeats
-- are enabled it also starts a client with the address derived from the sender, whatever length,
-- window and interval the configuration names.
pub handle_connection-node_config :
    (env : Env) (self : Self) (c : Connection) (s : Node) (vip vmac ip : Text) (hb : Heartbeats)
    → Pings env c
    → Reads env c (message_of (node_config vip vmac hb))
    → ((before : List Event) → env.startable before ≡ true)
    → s.hb_process ≡ none
    → coord_ip (text c.peer) ≡ ok ip
    → handle_connection env self c s ≡ (ok again, configured self c vip vmac hb ip s)
unfolding dispatch item lookup codes message_of node_config ◌=?◌
handle_connection-node_config env self c s vip vmac ip hb pings reads startable off there =
    handle_connection-Reads env self c _ _ s pings reads refl
    ∙ dispatch-set_config env self c.peer _ (asked c s) _ (
        set_config-after env self c.peer (message_of (node_config vip vmac hb)) vip vmac ip
          hb.enabled (asked c s) startable off
          (ap coord_ip (ap_ip_of-node_config vip vmac hb c.peer) ∙ there) refl refl
          (no_tunnel vip vmac hb) (same_enabled hb))
