-- ===== src/Heartbeat/Client.antt =====
-- node_manager/heartbeat/heartbeat_client.py: registration of the key, the loop that sends the
-- heartbeats, and `main`. The network and the clock are arguments.
pub mod Laws
use smartedge.Base.{ℕ, ◌+◌, Bool, false, Option, none, some, List, [], ◌∷◌, ◌++◌}
use smartedge.Base.{Text, codes, ltb, ◌=?◌, if◌then◌else◌, length}
use smartedge.Base.Bytes.{Bytes, bar, strip_bytes}
use smartedge.Base.Hex.{hexlify}
use smartedge.Base.Utf8.{encode}
use smartedge.Base.Exec.{Result, ok, raised}
use smartedge.Heartbeat.Chain.{KeyDir, Disk, load_chain, generate_winternitz_chain}
use smartedge.Heartbeat.Wire.{heartbeat_message}

-- The payload of `send_public_key`: `client_id|<hex>`, encoded.
unfoldable pub registration_message : Text → Bytes → Bytes
registration_message client_id key = encode (client_id ++ bar ∷ hexlify key)

-- `peer` is the exchange with the coordinator: its answer, or `none` for an exception.
unfoldable pub send_public_key : (Bytes → Option Bytes) → Text → Option Bytes → Bool
unfolding registration_message
send_public_key peer client_id none = false
send_public_key peer client_id (some key) = elim (peer (registration_message client_id key)) [
  | none ↦ false
  | some ack ↦ strip_bytes ack =? codes "ACK"
]

-- One round of the loop: the time that it writes, and whether `sendto` succeeds.
pub record Tick : Type 0 where
  pub timestamp : Text
  pub delivered : Bool

-- The exit status, or the datagrams of a run that registered its key.
pub data Outcome : Type 0 where
  exit : ℕ → Outcome
  sent : List Bytes → Outcome

module _ (hash : Bytes → Bytes) where
  -- The datagrams that leave, from index `i` on. The list of rounds ends where the process is told
  -- to stop.
  unfoldable pub send_loop : Text → List Bytes → ℕ → List Tick → List Bytes
  send_loop client_id chain_points i [] = []
  send_loop client_id chain_points i (t ∷ ts) =
      let rest = send_loop client_id chain_points (i + 1) ts in
      if ltb i (length chain_points)
      then (elim (heartbeat_message hash client_id t.timestamp chain_points i) [
        | none ↦ []
        | some message ↦ if t.delivered then message ∷ rest else []
      ])
      else []

  -- What follows the chain; the key is read from its file.
  run_loop : (Bytes → Option Bytes) → Text → List Tick → Result (List Bytes) × KeyDir → Outcome
  unfolding send_loop send_public_key
  run_loop peer client_id ticks (raised e, dir) = exit 1
  run_loop peer client_id ticks (ok chain_points, dir) =
      if send_public_key peer client_id dir.public_key
      then sent (send_loop client_id chain_points 1 ticks)
      else exit 2

  -- A file that is there can be read.
  unfoldable pub main :
      Disk → (Bytes → Option Bytes) → Text → Bytes → ℕ → List Tick → KeyDir → Outcome
  unfolding run_loop
  main disk peer client_id seed chain_length ticks dir =
      run_loop peer client_id ticks (elim dir.winternitz_chain [
        | none ↦ generate_winternitz_chain hash disk seed chain_length dir
        | some bytes ↦ (load_chain bytes, dir)
      ])
