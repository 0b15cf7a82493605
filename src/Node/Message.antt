-- ===== src/Node/Message.antt =====
-- A message to a node as the dict that `json.loads` gives, and the dicts that ap_manager.py and
-- coordinator.py build.
use smartedge.Base.{ℕ, Bool, true, false, Option, none, some, [], ◌∷◌, ◌++◌, not, ◌==◌}
use smartedge.Base.{Text, codes, is_empty, if◌then◌else◌}
use smartedge.Base.Decimal.{dec}
use smartedge.Base.Dict.{Dict, lookup}
use smartedge.Base.Exec.{Result, ok, raised, key_error}
use smartedge.Swarm.Io.{NodeConfig, Heartbeats, Config, set_config, update_config, go_away}
use smartedge.Swarm.Settings.{coordinator_tcp_port}

pub data Json : Type 0 where
  null : Json
  boolean : Bool → Json
  number : ℕ → Json
  text : Text → Json

abbrev pub Message : Type 0
Message = Dict Json

-- `bool(value)` of `config_data.get(key)`.
unfoldable pub truth : Option Json → Bool
truth none = false
truth (some null) = false
truth (some (boolean b)) = b
truth (some (number n)) = not (n == 0)
truth (some (text t)) = not (is_empty t)

-- `f'{value}'`
unfoldable pub shown : Json → Text
shown null = codes "None"
shown (boolean true) = codes "True"
shown (boolean false) = codes "False"
shown (number n) = dec n
shown (text t) = t

-- `config_data[key]`
unfoldable pub item : Text → Message → Result Json
item key m = elim (lookup key m) [ none ↦ raised key_error | some v ↦ ok v ]

abbrev pub entry : Text → Option Json → Message
entry key none = []
entry key (some v) = (key, v) ∷ []

abbrev pub number? : Option ℕ → Option Json
number? none = none
number? (some n) = some (number n)

abbrev text? : Option Text → Option Json
text? none = none
text? (some t) = some (text t)

-- The parameters of the heartbeats, where they are on.
unfoldable pub hb_parameters : Heartbeats → Message
hb_parameters h =
    if h.enabled
    then entry (codes "hb_length") (number? h.hb_length)
      ++ (entry (codes "hb_window") (number? h.hb_window)
          ++ entry (codes "hb_interval") (number? h.hb_interval))
    else []

abbrev heartbeat_entries : Option Heartbeats → Message
heartbeat_entries none = []
heartbeat_entries (some h) =
    (codes "heartbeat", boolean h.enabled)
    ∷ (codes "COORDINATOR_PUBKEY_PORT", number 5007)
    ∷ (codes "COORDINATOR_HB_PORT", number 5008)
    ∷ hb_parameters h

abbrev config_entries : Text → NodeConfig → Message
config_entries type c =
    (codes "TYPE", text type)
    ∷ (codes "VETH1_VIP", text c.veth1_vip)
    ∷ (codes "VETH1_VMAC", text c.veth1_vmac)
    ∷ (entry (codes "VXLAN_ID") (number? c.vxlan_id)
        ++ (codes "SWARM_ID", number c.swarm_id)
          ∷ (codes "COORDINATOR_VIP", text c.coordinator_vip)
          ∷ (codes "COORDINATOR_TCP_PORT", number coordinator_tcp_port)
          ∷ (entry (codes "AP_UUID") (text? c.ap_uuid) ++ heartbeat_entries c.heartbeat))

-- The dict of a configuration, as the senders write it.
unfoldable pub message_of : Config → Message
message_of (set_config c) = config_entries (codes "SET_CONFIG") c
message_of (update_config c) = config_entries (codes "UPDAET_CONFIG") c
message_of go_away = (codes "TYPE", text (codes "go_away")) ∷ []
