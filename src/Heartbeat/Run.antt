-- ===== src/Heartbeat/Run.antt =====
-- Sender and receiver together: which runs of heartbeats keep a node alive.
pub mod Sender
use smartedge.Base.{
  ℕ, zero, suc, ◌+◌, ◌-◌, ◌≤◌, ◌<◌, ◌≡◌, refl, sym, ap, ◌∙◌, Bool, true, false, some,
}
use smartedge.Base.{List, [], ◌∷◌, ◌++◌, ◌&&◌, ◌||◌, ◌==◌, ◌=?◌, =?_refl, if◌then◌else◌, arith}
use smartedge.Base.{Text, is_empty, length, ltb, leb, get_elem?, map, none}
use smartedge.Base.Bytes.{Bytes}
use smartedge.Base.Decimal.{pos}
use smartedge.Base.Exec.{ok}
use smartedge.Heartbeat.Chain.{hash_n}
use smartedge.Heartbeat.Chain.Laws.{hash_n-add}
use smartedge.Heartbeat.Wire.{Datagram, encode_heartbeat, parse_datagram}
use smartedge.Heartbeat.Wire.Laws.{IsField, IsSeparable, payload_of, parse-encode}
use smartedge.Heartbeat.Server.{Status, alive, Env, Server}
use smartedge.Heartbeat.Server.Calls.{IsUp, IsCached, after_hb, cache_hb-IsCached}
use smartedge.Heartbeat.Server.Receive.{handle_hb_datagram}
use smartedge.Heartbeat.Server.Receive.Laws.{is_fresh, handle-is_fresh}

-- The datagrams that reach the server, in order.
pub deliver : (Bytes → Bytes) → Env → List Bytes → Server → Server
deliver hash env [] s = s
deliver hash env (b ∷ bs) s = deliver hash env bs (handle_hb_datagram hash env b s).1

-- A heartbeat of the sender: its time and its index.
pub record Beat : Type 0 where
  pub timestamp : Text
  pub index : ℕ

-- The index that the server holds after the beats.
abbrev pub final : ℕ → List Beat → ℕ
final last [] = last
final last (b ∷ bs) = final b.index bs

abbrev pub final_status : Status → List Beat → Status
final_status st [] = st
final_status st (b ∷ bs) = final_status alive bs

-- Indices that grow, with at most one heartbeat lost between two that arrive.
abbrev pub Follows : ℕ → List Beat → Type 0
Follows last [] = Unit
Follows last (b ∷ bs) = (last < b.index) × (b.index ≤ last + 2) × Follows b.index bs

-- Every index leaves two or more heartbeats out after `last`.
abbrev pub Beyond : ℕ → List Beat → Type 0
Beyond last [] = Unit
Beyond last (b ∷ bs) = (last + 3 ≤ b.index) × Beyond last bs

is_near : (i last : ℕ) → last < i → i ≤ last + 2 → (i == last + 1 || i == last + 2) ≡ true
is_near i last h k = ground arith

is_far : (i last : ℕ) → last + 3 ≤ i → (i == last + 1 || i == last + 2) ≡ false
is_far i last h = ground arith

module _ (hash : Bytes → Bytes) (client_id : Text) (x0 : Bytes) (n : ℕ) where
  -- Heartbeat `i` of a sender whose chain has `n` links.
  pub message : Beat → Bytes
  message b = encode_heartbeat hash client_id b.timestamp b.index (hash_n hash x0 (n - b.index))

  abbrev pub messages : List Beat → List Bytes
  messages [] = []
  messages (b ∷ bs) = message b ∷ messages bs

  -- The time is a field that is not empty, the index is in the chain, and the binary fields hold no
  -- separator.
  pub record IsWellSent (b : Beat) : Type 0 where
    pub time : IsField b.timestamp
    pub has_time : is_empty b.timestamp ≡ false
    pub in_chain : b.index ≤ n
    pub separable :
        IsSeparable
          (hash_n hash x0 (n - b.index))
          (hash (payload_of client_id b.timestamp b.index ++ hash_n hash x0 (n - b.index)))

  abbrev pub AllWellSent : List Beat → Type 0
  AllWellSent [] = Unit
  AllWellSent (b ∷ bs) = IsWellSent b × AllWellSent bs

  abbrev datagram : Beat → Datagram
  datagram b = record {
    client_id = client_id;
    ts_str = b.timestamp;
    index = pos b.index;
    w_i = hash_n hash x0 (n - b.index);
  }

  parse-message :
      (b : Beat)
      → IsField client_id
      → IsWellSent b
      → parse_datagram hash (message b) ≡ ok (datagram b)
  unfolding message
  parse-message b named w =
      parse-encode hash client_id b.timestamp b.index (hash_n hash x0 (n - b.index)) named w.time
        w.has_time w.separable

  -- The preimage of an honest heartbeat leads to the public key.
  hash_n-index :
      (b : Beat)
      → b.index ≤ n
      → hash_n hash (hash_n hash x0 (n - b.index)) b.index ≡ hash_n hash x0 n
  hash_n-index b h =
      hash_n-add hash x0 (n - b.index) b.index
      ∙ ap (hash_n hash x0) {x = n - b.index + b.index} {y = n} (omega arith)

  module _ (env : Env) (up : IsUp env) (named : IsField client_id) (k : ℕ) (key : Bytes)
      (is_key : hash_n hash x0 n ≡ k ∷ key) where
    fresh :
        (b : Beat) (last : ℕ)
        → b.index ≤ n
        → is_fresh hash (k ∷ key) last (datagram b) ≡ (b.index == last + 1 || b.index == last + 2)
    unfolding is_fresh
    fresh b last h = ground (arith, hash_n-index b h, is_key, =?_refl (hash_n hash x0 n))

    take_one :
        (b : Beat) (last : ℕ) (st : Status) (s : Server)
        → IsWellSent b
        → IsCached client_id k key last st s
        → (handle_hb_datagram hash env (message b) s).1 ≡ (
            if b.index == last + 1 || b.index == last + 2
            then after_hb env client_id b.index alive s
            else s)
    take_one b last st s w c =
        ap (λ r. r.1)
          (handle-is_fresh hash env up (datagram b) k key last st s c (message b)
            (parse-message b named w))
        ∙ rw (fresh b last w.in_chain)

    -- With the database up, a node with a key in the cache, whose heartbeats are in its chain and
    -- hold no separator inside a field, stays alive through any run of them in which no two in a
    -- row are lost, and the server holds the last index.
    pub deliver-Follows :
        (bs : List Beat) (last : ℕ) (st : Status) (s : Server)
        → AllWellSent bs
        → Follows last bs
        → IsCached client_id k key last st s
        → IsCached client_id k key
            (final last bs)
            (final_status st bs)
            (deliver hash env (messages bs) s)
    unfolding deliver
    deliver-Follows [] last st s w f c = c
    deliver-Follows (b ∷ bs) last st s (w, ws) (later, near, f) c =
        let next : IsCached client_id k key b.index alive
            (handle_hb_datagram hash env (message b) s).1 =
          rw (take_one b last st s w c, is_near b.index last later near)
            (cache_hb-IsCached client_id k key last st s c env b.index alive) in
        deliver-Follows bs b.index alive (handle_hb_datagram hash env (message b) s).1 ws f next

    -- With the database up, for a node with a key in the cache, whose heartbeats are in its chain
    -- and hold no separator inside a field, no heartbeat is taken once two in a row are lost: the
    -- server stays as it is.
    pub deliver-Beyond :
        (bs : List Beat) (last : ℕ) (st : Status) (s : Server)
        → AllWellSent bs
        → Beyond last bs
        → IsCached client_id k key last st s
        → deliver hash env (messages bs) s ≡ s
    unfolding deliver
    deliver-Beyond [] last st s w f c = refl
    deliver-Beyond (b ∷ bs) last st s (w, ws) (far, f) c =
        ap (deliver hash env (messages bs))
          (take_one b last st s w c ∙ rw (is_far b.index last far))
        ∙ deliver-Beyond bs last st s ws f c
