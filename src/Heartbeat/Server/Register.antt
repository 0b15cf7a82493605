-- ===== src/Heartbeat/Server/Register.antt =====
-- `_handle_tcp_client` of coordinator/heartbeat_server.py, which registers public keys.
pub mod Laws
use smartedge.Base.{ℕ, ◌%◌, Bool, Option, none, some, [], ◌∷◌, not, ◌||◌, ◌==◌}
use smartedge.Base.{Text, is_empty, length, if◌then◌else◌}
use smartedge.Base.Bytes.{Bytes, bar, split_once, strip}
use smartedge.Base.Hex.{from_hex}
use smartedge.Base.Utf8.{decode}
use smartedge.Base.Exec.{Exec, value_error, return, require, try_except, ◌>>=◌, ◌>>◌}
use smartedge.Heartbeat.Server.{
  Status, registered, alive, dead, Env, Server, ack, nack, HbState, sendall, save_pubkey,
  save_hb_state, get_hb_state,
}

-- What `conn.recv` gave: bytes, of which none means a closed connection, or an exception.
pub data Received : Type 0 where
  received : Bytes → Received
  timed_out failed : Received

-- Both fields stripped, the client named, the key in pairs of digits. `none` is answered by NACK.
checked : Text → Text → Option (Text × Bytes)
checked client_id pk_hex =
    if is_empty client_id || not (length pk_hex % 2 == 0)
    then none
    else elim (from_hex pk_hex) [ none ↦ none | some key ↦ some (client_id, key) ]

unfoldable pub parse_registration : Text → Option (Text × Bytes)
unfolding checked
parse_registration msg = elim (split_once bar msg) [
  | none ↦ none
  | some (client_id, pk_hex) ↦ checked (strip client_id) (strip pk_hex)
]

-- A node that was dead starts again from index 0.
unfoldable pub revive : Env → Text → Status → Exec Server (Unit {0})
unfolding return
revive env client_id dead = save_hb_state env client_id 0 registered
revive env client_id _ = return tt

unfoldable pub store : Env → Text → Bytes → Exec Server (Unit {0})
unfolding revive
store env client_id key = do
  save_pubkey env client_id key
  h ← get_hb_state env client_id
  revive env client_id h.status
  sendall env ack

unfoldable pub register : Env → Text → Exec Server (Unit {0})
unfolding store
register env msg = elim (parse_registration msg) [
  | none ↦ sendall env nack
  | some (client_id, key) ↦ store env client_id key
]

-- `try: conn.sendall(b"NACK")  except: pass`
unfoldable pub refuse : Env → Exec Server (Unit {0})
unfolding try_except return
refuse env = try_except (sendall env nack) (λ _. return tt)

unfoldable pub handle_tcp_client : Env → Received → Exec Server (Unit {0})
unfolding register refuse try_except return require
handle_tcp_client env timed_out = return tt
handle_tcp_client env failed = refuse env
handle_tcp_client env (received []) = return tt
handle_tcp_client env (received (b ∷ bs)) =
    try_except (do msg ← require value_error (decode (b ∷ bs)); register env msg) (λ _. refuse env)
