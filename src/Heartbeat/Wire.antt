-- ===== src/Heartbeat/Wire.antt =====
-- The datagram of a heartbeat: what `send_heartbeat` of node_manager/heartbeat/heartbeat_client.py
-- writes, and the part of `_handle_hb_datagram` of coordinator/heartbeat_server.py that reads it.
pub mod Laws
use smartedge.Base.{ℕ, suc, ◌+◌, ◌-◌, Option, none, some, List, [], ◌∷◌, ◌++◌}
use smartedge.Base.{Text, ◌=?◌, if◌then◌else◌, leb, length, get_elem?}
use smartedge.Base.Bytes.{Bytes, bar, split, split_pair}
use smartedge.Base.Decimal.{ℤ, dec, int}
use smartedge.Base.Utf8.{decode, encode}
use smartedge.Base.Exec.{Result, ok, raised, value_error}

-- What a datagram says, once its authenticator has been checked.
pub record Datagram : Type 0 where
  pub client_id : Text
  pub ts_str : Text
  pub index : ℤ
  pub w_i : Bytes

module _ (hash : Bytes → Bytes) where
  -- `payload + b"||" + w_i + b"||" + authenticator`
  unfoldable pub encode_heartbeat : Text → Text → ℕ → Bytes → Bytes
  encode_heartbeat client_id timestamp i w_i =
      let payload = encode client_id ++ bar ∷ (timestamp ++ bar ∷ dec i) in
      payload ++ bar ∷ bar ∷ (w_i ++ bar ∷ bar ∷ hash (payload ++ w_i))

  -- `chain_points[-(i + 1)]` and the message, or `none` where the chain is exhausted.
  unfoldable pub heartbeat_message : Text → Text → List Bytes → ℕ → Option Bytes
  heartbeat_message client_id timestamp chain_points i =
      if leb (length chain_points) i
      then none
      else elim (get_elem? chain_points (length chain_points - suc i)) [
        | none ↦ none
        | some w_i ↦ some (encode_heartbeat client_id timestamp i w_i)
      ]

  -- The three decoded fields and the test of the authenticator.
  check_fields : Bytes → Bytes → Bytes → Option Text → Option Text → Option Text → Result Datagram
  check_fields payload w_i authenticator (some client_id) (some ts_str) (some digits) =
      elim (int digits) [
        | none ↦ raised value_error
        | some i ↦
            if hash (payload ++ w_i) =? authenticator
            then ok (record { client_id = client_id; ts_str = ts_str; index = i; w_i = w_i })
            else raised value_error
      ]
  check_fields payload w_i authenticator _ _ _ = raised value_error

  check_payload : Bytes → Bytes → Bytes → List Bytes → Result Datagram
  unfolding check_fields
  check_payload payload w_i authenticator (c ∷ t ∷ n ∷ []) =
      check_fields payload w_i authenticator (decode c) (decode t) (decode n)
  check_payload payload w_i authenticator _ = raised value_error

  check_parts : List Bytes → Result Datagram
  unfolding check_payload
  check_parts (payload ∷ w_i ∷ authenticator ∷ []) =
      check_payload payload w_i authenticator (split bar payload)
  check_parts _ = raised value_error

  -- The split, the fields and the authenticator. Every exception there is a `ValueError`.
  unfoldable pub parse_datagram : Bytes → Result Datagram
  unfolding check_parts
  parse_datagram bytes = check_parts (split_pair bytes)
