-- ===== src/Heartbeat/Server/Replay.antt =====
-- A heartbeat that was taken is not taken a second time.
use smartedge.Base.{ℕ, ◌+◌, ◌≤◌, ◌≡◌, refl, true, false, List, ◌∷◌, ◌&&◌, ◌||◌, ◌=?◌, arith}
use smartedge.Base.Bytes.{Bytes}
use smartedge.Base.Decimal.{ℤ, pos, negsuc}
use smartedge.Base.Exec.{ok}
use smartedge.Heartbeat.Chain.{hash_n}
use smartedge.Heartbeat.Wire.{Datagram, parse_datagram}
use smartedge.Heartbeat.Server.{Env, Server}
use smartedge.Heartbeat.Server.Calls.{IsUp}
use smartedge.Heartbeat.Server.Receive.{equals, handle_hb_datagram, rounds}
use smartedge.Heartbeat.Server.Receive.Laws.{is_fresh, handle-is_fresh}
use smartedge.Heartbeat.Server.Guard.{
  Op, datagram, acts, Move, stay, on, Moves, done, move, Holds, acts-Moves, taken-Holds,
}

module _ {hash : Bytes → Bytes} {pk : Bytes} where
  Move-grows : {last i : ℕ} → Move hash pk last i → last ≤ i
  Move-grows stay = omega arith
  Move-grows (on i w h k p) = omega (arith, h)

  Moves-grows : {last n i : ℕ} → Moves hash pk last n i → last ≤ i
  Moves-grows done = omega arith
  Moves-grows (move m ms) = omega (arith, Move-grows m, Moves-grows ms)

module _ (hash : Bytes → Bytes) (pk : Bytes) (d : Datagram) where
  is_stale : (last : ℕ) → rounds d.index ≤ last → is_fresh hash pk last d ≡ false
  unfolding is_fresh
  is_stale last h = go d.index h
    where
      go :
          (i : ℤ)
          → rounds i ≤ last
          → ((equals i (last + 1) || equals i (last + 2)) && hash_n hash d.w_i (rounds i) =? pk)
            ≡ false
      go (pos n) h = ground (arith, h)
      go (negsuc n) h = ground arith

-- With the database up, a fresh datagram of a node in the cache that was handled is not taken
-- again: after any further datagrams and rounds of the monitor it leaves the server as it is.
pub acts-replayed :
    (hash : Bytes → Bytes) (env : Env) (limit b : ℕ) (key : Bytes) (bytes : Bytes) (d : Datagram)
    (last : ℕ) (s : Server) (os : List Op)
    → IsUp env
    → parse_datagram hash bytes ≡ ok d
    → Holds d.client_id b key last s
    → is_fresh hash (b ∷ key) last d ≡ true
    → handle_hb_datagram hash env bytes (acts hash env limit (datagram bytes ∷ os) s)
      ≡ (ok tt, acts hash env limit (datagram bytes ∷ os) s)
unfolding acts
acts-replayed hash env limit b key bytes d last s os up parsed c fresh =
    let held = taken-Holds hash env up b key d last s bytes parsed c fresh in
    let (j, moves, final) =
      acts-Moves hash env up b key limit d.client_id os (rounds d.index)
        (handle_hb_datagram hash env bytes s).1 held in
    rw
      (
        handle-is_fresh hash env up d b key j final.status _ final.cached bytes parsed,
        is_stale hash (b ∷ key) d j (Moves-grows moves),
      )
      refl
