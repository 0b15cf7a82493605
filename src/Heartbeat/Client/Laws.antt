-- ===== src/Heartbeat/Client/Laws.antt =====
-- The loop of the client ends with its chain.
use smartedge.Base.{ℕ, ◌+◌, ◌-◌, ◌≤◌, ◌≡◌, refl, List, [], ◌∷◌, ◌++◌, arith}
use smartedge.Base.{Text, length}
use smartedge.Base.Bytes.{Bytes}
use smartedge.Heartbeat.Client.{Tick, send_loop}

module _ (hash : Bytes → Bytes) (client_id : Text) (chain_points : List Bytes) where
  past_end :
      (i : ℕ) (ts : List Tick)
      → length chain_points ≤ i
      → send_loop hash client_id chain_points i ts ≡ []
  unfolding send_loop
  past_end i [] h = refl
  past_end i (t ∷ ts) h = ground (arith, h)

  same_rest :
      (i : ℕ) (t : Tick) (ts us : List Tick)
      → send_loop hash client_id chain_points (i + 1) us
        ≡ send_loop hash client_id chain_points (i + 1) ts
      → send_loop hash client_id chain_points i (t ∷ us)
        ≡ send_loop hash client_id chain_points i (t ∷ ts)
  unfolding send_loop
  same_rest i t ts us h = ground (arith, h)

  send_loop-append :
      (i : ℕ) (ts more : List Tick)
      → length chain_points ≤ i + length ts
      → send_loop hash client_id chain_points i (ts ++ more)
        ≡ send_loop hash client_id chain_points i ts
  unfolding send_loop
  send_loop-append i [] more h = past_end i more (omega (arith, h))
  send_loop-append i (t ∷ ts) more h =
      same_rest i t ts (ts ++ more) (send_loop-append (i + 1) ts more (omega (arith, h)))

  one_more :
      (i : ℕ) (t : Tick) (ts : List Tick)
      → length (send_loop hash client_id chain_points (i + 1) ts) ≤ length chain_points - (i + 1)
      → length (send_loop hash client_id chain_points i (t ∷ ts)) ≤ length chain_points - i
  unfolding send_loop
  one_more i t ts h = ground (arith, h)

  length-send_loop :
      (i : ℕ) (ts : List Tick)
      → length (send_loop hash client_id chain_points i ts) ≤ length chain_points - i
  length-send_loop i [] = unfold send_loop in omega arith
  length-send_loop i (t ∷ ts) = one_more i t ts (length-send_loop (i + 1) ts)

-- The loop of the client that sends the heartbeats ends with its chain: after as many rounds as
-- the chain has links it does nothing more, however long it may go on, and it has sent at most one
-- heartbeat for each link.
pub send_loop-ends :
    (hash : Bytes → Bytes) (client_id : Text) (chain_points : List Bytes) (ts more : List Tick)
    → length chain_points ≤ 1 + length ts
    → (send_loop hash client_id chain_points 1 (ts ++ more)
        ≡ send_loop hash client_id chain_points 1 ts)
      × (length (send_loop hash client_id chain_points 1 ts) ≤ length chain_points - 1)
send_loop-ends hash client_id chain_points ts more h = (
  send_loop-append hash client_id chain_points 1 ts more h,
  length-send_loop hash client_id chain_points 1 ts,
)
