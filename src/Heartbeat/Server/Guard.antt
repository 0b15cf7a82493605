-- ===== src/Heartbeat/Server/Guard.antt =====
-- What any sequence of datagrams, of whatever origin, and rounds of the monitor can do to a node.
use smartedge.Base.{
  ℕ, suc, ◌+◌, ◌≤◌, ◌<◌, ◌≡◌, refl, sym, ◌∙◌, true, false, some, List, [], ◌∷◌, inl, inr, arith,
}
use smartedge.Base.{Text, length, Bool-cases, ◌=?◌, =?_iff, ◌&&◌, ◌||◌}
use mathlib.Core.Path.{subst}
use smartedge.Base.Bytes.{Bytes}
use smartedge.Base.Decimal.{ℤ, pos, negsuc}
use smartedge.Base.Dict.{lookup}
use smartedge.Base.Exec.{Exec, Exc, Result, ok, raised, return, lift, try_except, ◌>>=◌}
use smartedge.Heartbeat.Chain.{hash_n}
use smartedge.Heartbeat.Wire.{Datagram, parse_datagram}
use smartedge.Heartbeat.Server.{Status, alive, dead, Env, Server}
use smartedge.Heartbeat.Server.Calls.{IsUp, IsCached, cache_hb-IsCached}
use smartedge.Heartbeat.Server.Receive.{handle_hb_datagram, rounds, equals}
use smartedge.Heartbeat.Server.Receive.Laws.{is_fresh, handle-is_fresh}
use smartedge.Heartbeat.Server.Timeout.{overdue, sweep}
use smartedge.Heartbeat.Server.Timeout.Laws.{NodupKeys, sweep-Swept}
use smartedge.Heartbeat.Server.Keeps.{Changes}
use smartedge.Heartbeat.Server.Keeps.Handlers.{
  StaysNodup, handle-Changes, sweep-Changes, nodup_closed, other_closed,
}

-- What happens to the server, one at a time.
pub data Op : Type 0 where
  datagram : Bytes → Op
  round : Op

module _ (hash : Bytes → Bytes) (env : Env) (limit : ℕ) where
  abbrev pub act : Op → Server → Server
  act (datagram bytes) s = (handle_hb_datagram hash env bytes s).1
  act round s = (sweep env limit s).1

  unfoldable pub acts : List Op → Server → Server
  acts [] s = s
  acts (o ∷ os) s = acts os (act o s)

-- The specification: the index of a node stays, or moves one or two on to an index whose preimage
-- is there.
pub data Move (hash : Bytes → Bytes) (pk : Bytes) (last : ℕ) : ℕ → Type 0 where
  stay : Move hash pk last last
  on :
      (i : ℕ) (w_i : Bytes) → last < i → i ≤ last + 2 → hash_n hash w_i i ≡ pk → Move hash pk last i

pub data Moves (hash : Bytes → Bytes) (pk : Bytes) : ℕ → ℕ → ℕ → Type 0 where
  done : {last : ℕ} → Moves hash pk last 0 last
  move : {last n i j : ℕ} → Move hash pk last i → Moves hash pk i n j → Moves hash pk last (suc n) j

-- A node of the cache with this key and index.
pub record Holds (node : Text) (b : ℕ) (key : Bytes) (last : ℕ) (s : Server) : Type 0 where
  pub status : Status
  pub cached : IsCached node b key last status s
  pub distinct : NodupKeys s.state

module _ (hash : Bytes → Bytes) (pk : Bytes) where
  fresh-Move :
      (d : Datagram) (last : ℕ)
      → is_fresh hash pk last d ≡ true
      → Move hash pk last (rounds d.index)
  unfolding is_fresh
  fresh-Move d last h = go d.index h
    where
      go :
          (i : ℤ)
          → ((equals i (last + 1) || equals i (last + 2)) && hash_n hash d.w_i (rounds i) =? pk)
            ≡ true
          → Move hash pk last (rounds i)
      go (pos n) h =
          on n d.w_i (ground arith) (ground arith)
            (ground (arith, h, =?_iff (hash_n hash d.w_i n) pk))
      go (negsuc n) h = ground arith

module _ (hash : Bytes → Bytes) (env : Env) (bytes : Bytes) where
  handle-raised :
      (e : Exc) (s : Server)
      → parse_datagram hash bytes ≡ raised e
      → (handle_hb_datagram hash env bytes s).1 ≡ s
  unfolding handle_hb_datagram lift return try_except ◌>>=◌
  handle-raised e s h = rw h refl

-- An action that keeps the keys distinct and the entry of the node.
pub keeps-Holds :
    {A : Type 0} (node : Text) (b : ℕ) (key : Bytes) (last : ℕ) (m : Exec Server A) (s : Server)
    → Changes StaysNodup m
    → Changes (λ d e. lookup node e ≡ lookup node d) m
    → Holds node b key last s
    → Holds node b key last (m s).1
keeps-Holds node b key last m s nodup same c = record {
  status = c.status;
  cached = record { last_ts = c.cached.last_ts; entry = same.runs s ∙ c.cached.entry };
  distinct = nodup.runs s c.distinct;
}

module _ (hash : Bytes → Bytes) (env : Env) (up : IsUp env) (limit : ℕ) (node : Text) (b : ℕ)
    (key : Bytes) where
  pub round-Holds :
      (last : ℕ) (s : Server)
      → Holds node b key last s
      → Holds node b key last (sweep env limit s).1
  round-Holds last s c =
      let (f, found, swept) = sweep-Swept env limit s node _ up c.distinct c.cached.entry in
      elim (Bool-cases (
        overdue limit (env.now_ts s.events) (record {
          public_key = some (b ∷ key);
          last_i = some last;
          status = some c.status;
          last_ts = c.cached.last_ts;
        }))) [
          | inl late ↦ record {
            status = dead;
            cached = record { last_ts = f.last_ts; entry = rw (found, swept, late) refl };
            distinct = (sweep-Changes nodup_closed env limit (λ _. tt)).runs s c.distinct;
          }
          | inr fine ↦ record {
            status = c.status;
            cached = record { last_ts = c.cached.last_ts; entry = rw (found, swept, fine) refl };
            distinct = (sweep-Changes nodup_closed env limit (λ _. tt)).runs s c.distinct;
          }
        ]

  other-Holds :
      (last : ℕ) (s : Server) (bytes : Bytes) (d : Datagram)
      → parse_datagram hash bytes ≡ ok d
      → (node =? d.client_id) ≡ false
      → Holds node b key last s
      → Holds node b key last (handle_hb_datagram hash env bytes s).1
  other-Holds last s bytes d h k c =
      keeps-Holds node b key last (handle_hb_datagram hash env bytes) s
        (handle-Changes nodup_closed hash env d tt bytes h)
        (handle-Changes (other_closed node) hash env d k bytes h) c

module _ (hash : Bytes → Bytes) (env : Env) (up : IsUp env) (b : ℕ) (key : Bytes) where
  pub taken-Holds :
      (d : Datagram) (last : ℕ) (s : Server) (bytes : Bytes)
      → parse_datagram hash bytes ≡ ok d
      → Holds d.client_id b key last s
      → is_fresh hash (b ∷ key) last d ≡ true
      → Holds d.client_id b key (rounds d.index) (handle_hb_datagram hash env bytes s).1
  taken-Holds d last s bytes h c fresh = record {
    status = alive;
    cached =
        rw (handle-is_fresh hash env up d b key last c.status s c.cached bytes h, fresh)
          (cache_hb-IsCached d.client_id b key last c.status s c.cached env (rounds d.index) alive);
    distinct = (handle-Changes nodup_closed hash env d tt bytes h).runs s c.distinct;
  }

  own-Moves :
      (d : Datagram) (last : ℕ) (s : Server) (bytes : Bytes)
      → parse_datagram hash bytes ≡ ok d
      → Holds d.client_id b key last s
      → (j : ℕ) × (Move hash (b ∷ key) last j)
        × Holds d.client_id b key j (handle_hb_datagram hash env bytes s).1
  own-Moves d last s bytes h c = elim (Bool-cases (is_fresh hash (b ∷ key) last d)) [
    | inl fresh ↦ (
      rounds d.index,
      fresh-Move hash (b ∷ key) d last fresh,
      taken-Holds d last s bytes h c fresh,
    )
    | inr stale ↦ (
      last,
      stay,
      rw (handle-is_fresh hash env up d b key last c.status s c.cached bytes h, stale) c,
    )
  ]

  module _ (limit : ℕ) (node : Text) where
    act-Moves :
        (o : Op) (last : ℕ) (s : Server)
        → Holds node b key last s
        → (j : ℕ) × (Move hash (b ∷ key) last j) × Holds node b key j (act hash env limit o s)
    act-Moves round last s c = (last, stay, round-Holds hash env up limit node b key last s c)
    act-Moves (datagram bytes) last s c = go (parse_datagram hash bytes) refl
      where
        go :
            (r : Result Datagram)
            → parse_datagram hash bytes ≡ r
            → (j : ℕ) × (Move hash (b ∷ key) last j)
              × Holds node b key j (act hash env limit (datagram bytes) s)
        go (raised e) h =
            (last, stay, subst (Holds node b key last) (sym (handle-raised hash env bytes e s h)) c)
        go (ok d) h = elim (Bool-cases (node =? d.client_id)) [
          | inl same ↦
              subst
                (λ n.
                  Holds n b key last s
                  → (j : ℕ) × (Move hash (b ∷ key) last j)
                    × Holds n b key j (act hash env limit (datagram bytes) s))
                (sym ((=?_iff node d.client_id).0 same)) (own-Moves d last s bytes h) c
          | inr other ↦
              (last, stay, other-Holds hash env up limit node b key last s bytes d h other c)
        ]

    -- With the database up, any sequence of datagrams, of whatever origin and content, and of
    -- rounds of the monitor refines the specification of a node in the cache: at each of them its
    -- index stays, or moves on by one or two to an index whose preimage hashes to the key; the key
    -- stays.
    pub acts-Moves :
        (os : List Op) (last : ℕ) (s : Server)
        → Holds node b key last s
        → (j : ℕ) × (Moves hash (b ∷ key) last (length os) j)
          × Holds node b key j (acts hash env limit os s)
    unfolding acts
    acts-Moves [] last s c = (last, done, c)
    acts-Moves (o ∷ os) last s c =
        let (i, first, held) = act-Moves o last s c in
        let (j, rest, final) = acts-Moves os i (act hash env limit o s) held in
        (j, move first rest, final)
