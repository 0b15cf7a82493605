-- ===== src/Heartbeat/Run/Sender.antt =====
-- The run of the client from its generated chain: from registration to the last heartbeat.
use smartedge.Base.{
  ℕ, suc, ◌+◌, ◌-◌, ◌≤◌, ◌≡◌, refl, sym, ap, ◌∙◌, Bool, true, false, Option, some, none,
}
use smartedge.Base.{List, [], ◌∷◌, arith, Text, length, get_elem?, leb, if◌then◌else◌}
use mathlib.Core.Path.{subst}
use smartedge.Base.Bytes.{Bytes}
use smartedge.Base.Dict.{lookup}
use smartedge.Base.Exec.{Exc, Result, ok, raised, os_error}
use smartedge.Heartbeat.Chain.{KeyDir, Disk, hash_n, generate_winternitz_chain}
use smartedge.Heartbeat.Chain.Laws.{generate-chain}
use smartedge.Heartbeat.Wire.{heartbeat_message}
use smartedge.Heartbeat.Wire.Laws.{IsField}
use smartedge.Heartbeat.Client.{Tick, send_loop}
use smartedge.Heartbeat.Server.{registered, Env, Server}
use smartedge.Heartbeat.Server.Calls.{IsUp, IsCached}
use smartedge.Heartbeat.Server.Register.{store}
use smartedge.Heartbeat.Server.Register.Laws.{store-new}
use smartedge.Heartbeat.Run.{
  Beat, final, final_status, Follows, message, messages, AllWellSent, deliver, deliver-Follows,
}

abbrev pub AllDelivered : List Tick → Type 0
AllDelivered [] = Unit
AllDelivered (t ∷ ts) = (t.delivered ≡ true) × AllDelivered ts

-- The beats of consecutive rounds.
abbrev pub beats : ℕ → List Tick → List Beat
beats i [] = []
beats i (t ∷ ts) = record { timestamp = t.timestamp; index = i } ∷ beats (i + 1) ts

beats-Follows : (last : ℕ) (ts : List Tick) → Follows last (beats (last + 1) ts)
beats-Follows last [] = tt
beats-Follows last (t ∷ ts) = (omega arith, omega arith, beats-Follows (last + 1) ts)

final-beats : (last : ℕ) (ts : List Tick) → final last (beats (last + 1) ts) ≡ last + length ts
final-beats last [] = omega arith
final-beats last (t ∷ ts) = omega (arith, final-beats (last + 1) ts)

-- The points of a chain with `n` links.
pub record IsChain (hash : Bytes → Bytes) (x0 : Bytes) (n : ℕ) (chain : List Bytes) : Type 0 where
  pub size : length chain ≡ n + 1
  pub at : (i : ℕ) → get_elem? chain i ≡ (if leb i n then some (hash_n hash x0 i) else none)

module _ (hash : Bytes → Bytes) (client_id : Text) (x0 : Bytes) (n : ℕ) (chain : List Bytes)
    (is : IsChain hash x0 n chain) where
  heartbeat_message-IsChain :
      (timestamp : Text) (i : ℕ)
      → i ≤ n
      → heartbeat_message hash client_id timestamp chain i
        ≡ some (message hash client_id x0 n (record { timestamp = timestamp; index = i }))
  unfolding heartbeat_message message
  heartbeat_message-IsChain timestamp i h = ground (
    arith,
    is.size,
    is.at (n - i),
    ap (λ m. get_elem? chain (m - suc i)) (is.size),
    ap (get_elem? chain) {x = n + 1 - suc i} {y = n - i} (omega arith),
  )

  -- Without losses, the loop of the client sends the heartbeats in order.
  send_loop-IsChain :
      (i : ℕ) (ts : List Tick)
      → AllDelivered ts
      → i + length ts ≤ n + 1
      → send_loop hash client_id chain i ts ≡ messages hash client_id x0 n (beats i ts)
  unfolding send_loop
  send_loop-IsChain i [] d h = refl
  send_loop-IsChain i (t ∷ ts) (d, ds) h =
      ground
        (arith, is.size, heartbeat_message-IsChain t.timestamp i, send_loop-IsChain (i + 1) ts ds)

raised_is_no_chain :
    {e : Exc} {c : List Bytes} → ◌≡◌ {A = Result (List Bytes)} (raised e) (ok c) → ⊥
raised_is_no_chain h = cc

some_same : {a b : Bytes} → ◌≡◌ {A = Option Bytes} (some a) (some b) → a ≡ b
some_same h = cc

-- What a generator that returns leaves, from its chain.
returned :
    (all : Bool) (points chain : List Bytes) (old : Option Bytes) (key : Bytes)
    → ◌≡◌ {A = Result (List Bytes)} (if all then ok points else raised os_error) (ok chain)
    → (points ≡ chain) × ((if all then some key else old) ≡ some key)
returned true points chain old key h = (cc, refl)
returned false points chain old key h = absurd (raised_is_no_chain h)

-- A node that is new to the server registers the key of its generated chain and sends a heartbeat
-- in each round, as many as the chain has links at most; with the database up, no loss and no
-- separator inside a field, the server then holds the number of rounds as its index, and has it
-- alive after the first.
pub generated_run :
    (hash : Bytes → Bytes) (client_id : Text) (x0 : Bytes) (n : ℕ) (env : Env) (s : Server)
    (chain : List Bytes) (disk : Disk) (old dir : KeyDir) (k : ℕ) (key : Bytes) (ts : List Tick)
    → generate_winternitz_chain hash disk x0 n old ≡ (ok chain, dir)
    → dir.public_key ≡ some (k ∷ key)
    → IsUp env
    → IsField client_id
    → lookup client_id s.state ≡ none
    → AllDelivered ts
    → length ts ≤ n
    → AllWellSent hash client_id x0 n (beats 1 ts)
    → IsCached client_id k key
        (length ts)
        (final_status registered (beats 1 ts))
        (deliver hash env (send_loop hash client_id chain 1 ts) (store env client_id (k ∷ key) s).1)
generated_run hash client_id x0 n env s chain disk old dir k key ts made public up named absent d h
      w =
    let (points, result, files, size, at) = generate-chain hash disk x0 n old in
    let (same, there) =
      returned _ points chain old.public_key (hash_n hash x0 n) (sym result ∙ ap (λ r. r.0) made) in
    let is_key : hash_n hash x0 n ≡ k ∷ key =
      some_same
        (sym there ∙ sym (ap (λ f. f.public_key) files) ∙ ap (λ r. r.1.public_key) made ∙ public) in
    let is : IsChain hash x0 n chain =
      subst (IsChain hash x0 n) same (record { size = size; at = at }) in
    rw (send_loop-IsChain hash client_id x0 n chain is 1 ts d (omega arith)) (
      subst
        (λ m. IsCached client_id k key m (final_status registered (beats 1 ts)) (
          deliver hash env (messages hash client_id x0 n (beats 1 ts))
            (store env client_id (k ∷ key) s).1))
        (final-beats 0 ts ∙ omega arith)
        (deliver-Follows hash client_id x0 n env up named k key is_key (beats 1 ts) 0 registered
          (store env client_id (k ∷ key) s).1 w (beats-Follows 0 ts)
          (store-new env up client_id k key s absent)))
