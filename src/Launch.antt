-- ===== src/Launch.antt =====
-- run.py: the checks before the start, the name of the machine, and the interfaces that are set up
-- for its role. The shell and the machine are answers.
pub mod Names
mod Tests
use smartedge.Base.{ℕ, ◌-◌, Bool, true, false, not, List, [], ◌∷◌, ◌++◌, ◌&&◌, ◌||◌, ◌==◌}
use smartedge.Base.{Text, codes, ◌=?◌, length, if◌then◌else◌}
use smartedge.Base.Decimal.{dec}
use smartedge.Base.Exec.{Exec, Result, ok, raised, return, lift, ◌>>=◌, ◌>>◌}
use smartedge.Address.{zeros, int_to_mac, ip_text, ip_add}
use smartedge.Swarm.Settings.{default_backbone_device, backbone_subnet, backbone_subnetmask}

-- `args.type.upper()`
pub data Role : Type 0 where
  ap sn co : Role

unfoldable pub role_name : Role → Text
role_name ap = codes "AP"
role_name sn = codes "SN"
role_name co = codes "CO"

-- `f"{n:06d}"`
unfoldable pub dec6 : ℕ → Text
dec6 n = let t = dec n in zeros (6 - length t) ++ t

-- `SELF_UUID_STR`
unfoldable pub self_uuid_str : Role → ℕ → Text
unfolding role_name dec6
self_uuid_str r n = role_name r ++ dec6 n

-- A command that ended: its return code and its output.
pub record Process : Type 0 where
  pub returncode : ℕ
  pub stdout : Text

pub record Machine : Type 0 where
  pub run : List Text → Text → Process
  pub interface_exists : Text → Bool
  pub wlan_if : Text
  pub eth_if : Text
  pub is_root : Bool
  pub is_venv : Bool
  pub running_in_screen : Bool

-- The commands so far are the state.
unfoldable pub shell : Machine → Text → Exec (List Text) Process
shell m c s = (ok (m.run s c), s ++ c ∷ [])

unfoldable pub shells : Machine → List Text → Exec (List Text) (Unit {0})
unfolding shell return ◌>>=◌
shells m [] = return tt
shells m (c ∷ cs) = do shell m c; shells m cs

unfoldable pub hotspot_commands : Machine → List Text
hotspot_commands m =
    (codes "nmcli con add type wifi ifname "
      ++ (m.wlan_if ++ codes " con-name SmartEdgeHotspot autoconnect yes ssid SE_NETWORK"))
    ∷ codes
        "nmcli con modify SmartEdgeHotspot 802-11-wireless.mode ap 802-11-wireless.band bg ipv4.method shared"
    ∷ codes "nmcli con modify SmartEdgeHotspot wifi-sec.key-mgmt wpa-psk"
    ∷ codes "nmcli con modify SmartEdgeHotspot wifi-sec.psk 123456123"
    ∷ codes "nmcli con up SmartEdgeHotspot"
    ∷ []

unfoldable pub init_hotspot : Machine → Exec (List Text) (Unit {0})
unfolding shell shells hotspot_commands ◌>>=◌
init_hotspot m = do
  ret ← shell m (codes "nmcli connection show SmartEdgeHotspot")
  shells m (
      if ret.returncode == 0
      then codes "nmcli con up SmartEdgeHotspot" ∷ []
      else hotspot_commands m)

unfoldable pub backbone_commands : Machine → ℕ → List Text
backbone_commands m a =
    (codes "ip link add smartedge-bb type vxlan id 1000 group 239.1.1.1 dstport 0 dev " ++ m.eth_if)
    ∷ (codes "sudo ip link set dev smartedge-bb address " ++ int_to_mac a)
    ∷ (codes "sudo ip address add "
        ++ (ip_text a ++ (backbone_subnetmask ++ codes " dev smartedge-bb")))
    ∷ codes "ip link set dev smartedge-bb up"
    ∷ []

unfoldable pub init_backbone : Machine → ℕ → Exec (List Text) (Unit {0})
unfolding shells backbone_commands lift ◌>>=◌
init_backbone m n s =
    let created = (do a ← lift (ip_add backbone_subnet n); shells m (backbone_commands m a)) s in
    if m.interface_exists default_backbone_device then (ok tt, s) else created

unfoldable pub wlan_commands : Machine → ℕ → List Text
wlan_commands m n =
    (codes "ip link set " ++ (m.wlan_if ++ codes " down"))
    ∷ (codes "ip link set " ++ (m.wlan_if ++ (codes " address " ++ int_to_mac n)))
    ∷ (codes "ip link set " ++ (m.wlan_if ++ codes " up"))
    ∷ []

set_address : Machine → ℕ → Text → Exec (List Text) Bool
unfolding shells wlan_commands return ◌>>=◌
set_address m n current =
    if int_to_mac n =? current then return true else (do shells m (wlan_commands m n); return true)

-- `false`: the program exits.
unfoldable pub init_wlan : Machine → ℕ → Exec (List Text) Bool
unfolding shell set_address return ◌>>=◌
init_wlan m n = do
  ret ← shell m (codes "cat /sys/class/net/" ++ (m.wlan_if ++ codes "/address"))
  λ s. if ret.returncode == 0 then set_address m n ret.stdout s else (ok false, s)

-- How `main` goes on: it exits, or runs the part of the role under a name.
pub data Outcome : Type 0 where
  exit : Outcome
  run_role : Role → Text → Outcome

abbrev under : Role → ℕ → Bool → Outcome
under r n true = run_role r (self_uuid_str r n)
under r n false = exit

start_role : Machine → ℕ → Role → Exec (List Text) Outcome
unfolding init_backbone init_hotspot init_wlan self_uuid_str return ◌>>=◌
start_role m n ap = do init_backbone m n; init_hotspot m; return (under ap n true)
start_role m n sn = do done ← init_wlan m n; return (under sn n done)
start_role m n co = do init_backbone m n; return (under co n true)

unfoldable pub main : Machine → ℕ → Role → Bool → Exec (List Text) Outcome
unfolding start_role
main m n r force_run s =
    if m.is_root && m.is_venv && (force_run || m.running_in_screen)
    then start_role m n r s
    else (ok exit, s)
