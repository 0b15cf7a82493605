-- ===== src/Heartbeat/Server/Receive/Laws.antt =====
-- Which datagrams the server takes, and what they change.
use smartedge.Base.{ℕ, ◌+◌, ◌≡◌, ap, Bool}
use smartedge.Base.{◌∷◌, ◌&&◌, ◌||◌, ◌=?◌, if◌then◌else◌, arith}
use smartedge.Base.Bytes.{Bytes}
use smartedge.Base.Exec.{ok, raised, value_error}
use smartedge.Heartbeat.Chain.{hash_n}
use smartedge.Heartbeat.Wire.{Datagram, parse_datagram}
use smartedge.Heartbeat.Server.{Env, Server, Status, alive}
use smartedge.Heartbeat.Server.Calls.{
  IsUp, IsCached, after_hb, save_hb_state-IsUp, get_pubkey-IsCached, get_hb_state-IsCached,
}
use smartedge.Heartbeat.Server.Receive.{
  equals, rounds, anchor_test, check_index, verify, handle_hb_datagram,
}

module _ (hash : Bytes → Bytes) where
  -- The next index or the one after it, with a preimage that hashes to the registered key.
  unfoldable pub is_fresh : Bytes → ℕ → Datagram → Bool
  is_fresh pk last d =
      (equals d.index (last + 1) || equals d.index (last + 2))
      && hash_n hash d.w_i (rounds d.index) =? pk

  check_index-is_fresh :
      (pk : Bytes) (last : ℕ) (d : Datagram)
      → check_index hash pk last d.index d.w_i
        ≡ (if is_fresh pk last d then ok tt else raised value_error)
  unfolding check_index is_fresh
  check_index-is_fresh pk last d = ground arith

module _ (hash : Bytes → Bytes) (env : Env) (up : IsUp env) (d : Datagram) (b : ℕ) (key : Bytes)
    (last : ℕ) (st : Status) (s : Server) (c : IsCached d.client_id b key last st s) where
  anchor_test-IsCached : anchor_test d.client_id d.index last s ≡ (ok tt, s)
  unfolding anchor_test
  anchor_test-IsCached = ground (arith, c.entry)

  pub verify-IsCached :
      verify hash env d s
      ≡ (if is_fresh hash (b ∷ key) last d then ok tt else raised value_error, s)
  unfolding verify
  verify-IsCached = rw (get_pubkey-IsCached d.client_id b key last st s c env) (
      rw (get_hb_state-IsCached d.client_id b key last st s c env)
        (rw (anchor_test-IsCached) (ap (λ r. (r, s)) (check_index-is_fresh hash (b ∷ key) last d))))

  -- With the database up, for a node with a key in the cache, a datagram that can be read sets the
  -- index and the status exactly when it is fresh, that is, of the next index or the one after it
  -- and with a preimage that hashes to the key; any other leaves the server as it was.
  pub handle-is_fresh :
      (bytes : Bytes)
      → parse_datagram hash bytes ≡ ok d
      → handle_hb_datagram hash env bytes s ≡ (
        ok tt,
        (if is_fresh hash (b ∷ key) last d
            then after_hb env d.client_id (rounds d.index) alive s
            else s),
      )
  unfolding handle_hb_datagram
  handle-is_fresh bytes parsed = ground (
    arith,
    parsed,
    verify-IsCached,
    save_hb_state-IsUp env up d.client_id (rounds d.index) alive s,
  )
