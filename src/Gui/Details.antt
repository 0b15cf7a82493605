-- ===== src/Gui/Details.antt =====
-- The page of a node: `get_node_details` of GUI/backend/heartbeat_api.py. Cassandra is an answer for
-- each query, by the keyspace of the session.
pub mod Laws
use smartedge.Base.{ℕ, ◌≡◌, refl, Bool, true, false, Option, none, some, List, [], ◌∷◌, ◌++◌, arith}
use smartedge.Base.{Text, codes, if◌then◌else◌}
use smartedge.Base.Hex.{hexlify}
use smartedge.Base.Exec.{
  Exec, ok, raised, db_error, return, require, modify, gets, raise, try_except, ◌>>=◌, ◌>>◌,
}

-- The status and the time of `heartbeat_state`, the time as `strftime` shows it.
pub record StateRow : Type 0 where
  pub status : Option Text
  pub last_ts : Option Text

-- `public_key`, as the driver returns it.
pub data PublicKey : Type 0 where
  missing : PublicKey
  as_text as_bytes : Text → PublicKey

pub record MemberRow : Type 0 where
  pub current_ap : Option Text
  pub virt_ip : Option Text
  pub virt_mac : Option Text

-- `none` is an exception, `some none` the answer of no row.
pub record Backend : Type 0 where
  pub connects : Bool
  pub has_keyspace : Text → Bool
  pub state_of : Option Text → Text → Option (Option StateRow)
  pub key_of : Option Text → Text → Option (Option PublicKey)
  pub member_of : Option Text → Text → Option (Option MemberRow)

-- A field of the answer, where `none` is null.
abbrev pub Field : Type 0
Field = Text × Option Text

pub record Page : Type 0 where
  pub keyspace : Option Text
  pub result : List Field

pub set_keyspace : Backend → Text → Exec Page (Unit {0})
set_keyspace b name s =
    if b.has_keyspace name then (ok tt, record s { keyspace = some name }) else (raised db_error, s)

pub put : List Field → Exec Page (Unit {0})
put fields s = (ok tt, record s { result = s.result ++ fields })

-- `ts.strftime(...) if ts else "-"`
abbrev or_dash : Option Text → Text
or_dash none = codes "-"
or_dash (some t) = t

abbrev pub state_fields : Option StateRow → List Field
state_fields none = []
state_fields (some r) =
    (codes "status", r.status) ∷ (codes "last_ts", some (or_dash r.last_ts)) ∷ []

abbrev shown_key : PublicKey → Option Text
shown_key missing = none
shown_key (as_text t) = some t
shown_key (as_bytes bs) = some (hexlify bs)

abbrev pub key_fields : Option PublicKey → List Field
key_fields none = []
key_fields (some k) = (codes "public_key", shown_key k) ∷ []

abbrev pub member_fields : Option MemberRow → List Field
member_fields none = []
member_fields (some r) =
    (codes "swarm", r.current_ap)
    ∷ (codes "virt_ip", r.virt_ip)
    ∷ (codes "virt_mac", r.virt_mac)
    ∷ []

abbrev pub swarm_keyspace : Text
swarm_keyspace = codes "swarm"

abbrev pub ks_swarm : Text
ks_swarm = codes "ks_swarm"

pub state_part : Backend → Text → Exec Page (Unit {0})
unfolding set_keyspace put require gets ◌>>=◌
state_part b uuid = do
  set_keyspace b swarm_keyspace
  keyspace ← gets (λ s. s.keyspace)
  row ← require db_error (b.state_of keyspace uuid)
  put (state_fields row)

-- The keyspace is the one that the part before has set.
pub key_part : Backend → Text → Exec Page (Unit {0})
unfolding put require gets ◌>>=◌
key_part b uuid = do
  keyspace ← gets (λ s. s.keyspace)
  row ← require db_error (b.key_of keyspace uuid)
  put (key_fields row)

pub member_part : Backend → Text → Exec Page (Unit {0})
unfolding set_keyspace put require gets ◌>>=◌
member_part b uuid = do
  set_keyspace b ks_swarm
  keyspace ← gets (λ s. s.keyspace)
  row ← require db_error (b.member_of keyspace uuid)
  put (member_fields row)

-- `try: m  except Exception: pass`
abbrev pub pass : Exec Page (Unit {0}) → Exec Page (Unit {0})
pass m = try_except m (λ e. return tt)

-- The session is new: it has no keyspace.
unfoldable pub get_node_details : Backend → Text → Exec Page (List Field)
unfolding state_part key_part member_part raise modify gets return try_except ◌>>=◌
get_node_details b uuid s =
    if b.connects
    then (do
      modify (λ s. record { keyspace = none; result = (codes "uuid", some uuid) ∷ [] })
      pass (state_part b uuid)
      pass (key_part b uuid)
      pass (member_part b uuid)
      gets (λ s. s.result))
        s
    else raise db_error s
