-- ===== src/Heartbeat/Server/Receive.antt =====
-- `_handle_hb_datagram` of coordinator/heartbeat_server.py.
pub mod Laws
use smartedge.Base.{ℕ, suc, ◌+◌, Bool, true, false, Option, none, some, ◌∷◌, not, ◌&&◌, ◌||◌}
use smartedge.Base.{Text, leb, ◌==◌, ◌=?◌, if◌then◌else◌}
use smartedge.Base.Bytes.{Bytes}
use smartedge.Base.Decimal.{ℤ, pos, negsuc}
use smartedge.Base.Dict.{lookup}
use smartedge.Base.Exec.{
  Exec, Result, ok, raised, value_error, key_error, return, require, lift, try_except, ◌>>=◌, ◌>>◌,
}
use smartedge.Heartbeat.Chain.{hash_n}
use smartedge.Heartbeat.Wire.{Datagram, parse_datagram}
use smartedge.Heartbeat.Server.{
  Entry, Env, Server, alive, HbState, get_pubkey, get_hb_state, save_hb_state,
}

abbrev pub equals : ℤ → ℕ → Bool
equals (pos i) n = i == n
equals (negsuc i) n = false

abbrev at_most : ℤ → ℕ → Bool
at_most (pos i) n = leb i n
at_most (negsuc i) n = true

-- The rounds of `range(i)`, of which a negative number has none.
abbrev pub rounds : ℤ → ℕ
rounds (pos i) = i
rounds (negsuc i) = 0

-- `if not pk: raise`, for the key that `get_pubkey` returned.
unfoldable pub known : Option Bytes → Result Bytes
known (some (b ∷ key)) = ok (b ∷ key)
known _ = raised value_error

-- The comparison with the anchor decides nothing, but it indexes the cache.
unfoldable pub anchor_test : Text → ℤ → ℕ → Exec Server (Unit {0})
anchor_test client i last_i s = elim (equals i (last_i + 1)) [
  | false ↦ (ok tt, s)
  | true ↦ elim (lookup client s.state) [
    | none ↦ (raised key_error, s)
    | some e ↦ elim (last_i == 0) [
      | false ↦ (ok tt, s)
      | true ↦ elim e.public_key [ none ↦ (raised key_error, s) | some key ↦ (ok tt, s) ]
    ]
  ]
]

module _ (hash : Bytes → Bytes) where
  -- The three tests of the index and the preimage, in the order of the code.
  unfoldable pub check_index : Bytes → ℕ → ℤ → Bytes → Result (Unit {0})
  check_index pk last_i i w_i =
      let matches = hash_n hash w_i (rounds i) =? pk in
      if not matches && not (equals i (last_i + 2) && matches)
      then raised value_error
      else if at_most i last_i
      then raised value_error
      else if not (equals i (last_i + 1) || equals i (last_i + 2))
      then raised value_error
      else ok tt

  -- What follows the authenticator.
  unfoldable pub verify : Env → Datagram → Exec Server (Unit {0})
  unfolding known anchor_test check_index lift ◌>>=◌
  verify env d = do
    found ← get_pubkey env d.client_id
    pk ← lift (known found)
    h ← get_hb_state env d.client_id
    anchor_test d.client_id d.index h.last_i
    lift (check_index pk h.last_i d.index d.w_i)

  unfoldable pub accept : Env → Datagram → Exec Server (Unit {0})
  unfolding verify
  accept env d = do verify env d; save_hb_state env d.client_id (rounds d.index) alive

  -- Every exception drops the datagram.
  unfoldable pub handle_hb_datagram : Env → Bytes → Exec Server (Unit {0})
  unfolding accept return try_except
  handle_hb_datagram env bytes =
      try_except (do d ← lift (parse_datagram hash bytes); accept env d) (λ _. return tt)
