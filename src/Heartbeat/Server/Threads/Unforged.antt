-- ===== src/Heartbeat/Server/Threads/Unforged.antt =====
-- No interleaving of the threads gives a node an index without a preimage.
use smartedge.Base.{
  ℕ, ◌≡◌, refl, sym, ◌∙◌, true, false, Option, none, some, List, [], ◌∷◌, ◌++◌, ◌⊎◌, inl, inr,
  arith,
}
use smartedge.Base.{Bool, Text, All, All-append, Bool-cases, ◌=?◌, =?_iff}
use mathlib.Core.Path.{subst}
use mathlib.Core.Bool.{true≢false}
use smartedge.Base.Bytes.{Bytes}
use smartedge.Base.Exec.{Result, ok, raised, Exc, return, lift, try_except, ◌>>=◌}
use smartedge.Heartbeat.Chain.{hash_n}
use smartedge.Heartbeat.Wire.{Datagram, parse_datagram}
use smartedge.Heartbeat.Server.{Env, Server}
use smartedge.Heartbeat.Server.Calls.{IsUp}
use smartedge.Heartbeat.Server.Receive.{rounds, verify}
use smartedge.Heartbeat.Server.Receive.Laws.{is_fresh}
use smartedge.Heartbeat.Server.Keeps.Handlers.{verify-Changes, nodup_closed, other_closed}
use smartedge.Heartbeat.Server.Guard.{Holds, keeps-Holds, round-Holds}
use smartedge.Heartbeat.Server.Threads.{
  Write, check, store_row, store_entry, System, waiting, to_cache, Step, arrive, write, cache,
  registration, monitor, Reach, start, later,
}
use smartedge.Heartbeat.Server.Threads.Laws.{
  check-own, store_row-IsUp, logged-Holds, store_entry-Holds, store_entry-other,
}
use smartedge.Heartbeat.Server.Register.{Received}
use smartedge.Heartbeat.Server.Keeps.Registration.{spares, registration-Holds}

-- The index `last` of the beginning, or one with a preimage.
abbrev pub HasPreimage : (Bytes → Bytes) → Bytes → ℕ → ℕ → Type 0
HasPreimage hash pk last i = (i ≡ last) ⊎ ((w_i : Bytes) × (hash_n hash w_i i ≡ pk))

module _ (hash : Bytes → Bytes) (env : Env) (up : IsUp env) (limit : ℕ) (admitted : Received → Bool)
    (node : Text) (b : ℕ) (key : Bytes) (last : ℕ) where
  abbrev pub IsOwed : Write → Type 0
  IsOwed w = ((node =? w.client_id) ≡ false) ⊎ HasPreimage hash (b ∷ key) last w.index

  -- What every reachable state has.
  pub record Unforged (t : System) : Type 0 where
    pub index : ℕ
    pub held : Holds node b key index t.server
    pub from : HasPreimage hash (b ∷ key) last index
    pub owed : All IsOwed t.writes
    pub stored : All (λ c. IsOwed c.0) t.stored

  All-pick :
      {A : Type 0} (Q : A → Type 0) (ws : List A) (w : A) (vs : List A)
      → All Q (ws ++ w ∷ vs)
      → Q w × All Q (ws ++ vs)
  All-pick Q [] w vs (h, p) = (h, p)
  All-pick Q (u ∷ ws) w vs (h, p) = let (a, q) = All-pick Q ws w vs p in (a, (h, q))

  fresh-HasPreimage :
      (d : Datagram) (i : ℕ)
      → is_fresh hash (b ∷ key) i d ≡ true
      → HasPreimage hash (b ∷ key) last (rounds d.index)
  unfolding is_fresh
  fresh-HasPreimage d i h =
      inr (d.w_i, ground (arith, h, =?_iff (hash_n hash d.w_i (rounds d.index)) (b ∷ key)))

  OwedBy : Result (Option Write) → Type 0
  OwedBy (ok o) = All IsOwed (waiting o)
  OwedBy (raised e) = Unit

  -- A datagram keeps the node as it is, and what it leaves to be written is owed.
  abbrev Checked : Result (Option Write) × Server → ℕ → Type 0
  Checked r i = Holds node b key i r.1 × OwedBy r.0

  checked-own :
      (s : Server) (i : ℕ) (bytes : Bytes) (d : Datagram)
      → parse_datagram hash bytes ≡ ok d
      → d.client_id ≡ node
      → Holds node b key i s
      → Checked (check hash env bytes s) i
  unfolding OwedBy
  checked-own s i bytes d parsed same c =
      let seen =
        check-own hash env up b key d bytes i s parsed
          (subst (λ n. Holds n b key i s) (sym same) c) in
      elim (Bool-cases (is_fresh hash (b ∷ key) i d)) [
        | inl fresh ↦ rw (seen, fresh) (c, (inr (fresh-HasPreimage d i fresh), tt))
        | inr stale ↦ rw (seen, stale) (c, tt)
      ]

  check-parsed :
      (s : Server) (bytes : Bytes) (d : Datagram)
      → parse_datagram hash bytes ≡ ok d
      → check hash env bytes s ≡ (
        elim (verify hash env d s).0 [
          | ok u ↦ ok (some (record { client_id = d.client_id; index = rounds d.index }))
          | raised e ↦ ok none
        ],
        (verify hash env d s).1,
      )
  unfolding check lift return try_except ◌>>=◌
  check-parsed s bytes d parsed = ground (arith, parsed)

  checked-other :
      (s : Server) (i : ℕ) (bytes : Bytes) (d : Datagram)
      → parse_datagram hash bytes ≡ ok d
      → (node =? d.client_id) ≡ false
      → Holds node b key i s
      → Checked (check hash env bytes s) i
  unfolding OwedBy
  checked-other s i bytes d parsed other c = rw (check-parsed s bytes d parsed) (
    keeps-Holds node b key i (verify hash env d) s (verify-Changes nodup_closed hash env d tt)
        (verify-Changes (other_closed node) hash env d other) c,
    owed (verify hash env d s).0,
  )
    where
      owed :
          (r : Result (Unit {0}))
          → OwedBy (elim r as (λ _. Result (Option Write)) [
            | ok u ↦ ok (some (record { client_id = d.client_id; index = rounds d.index }))
            | raised e ↦ ok none
          ])
      owed (ok u) = (inl other, tt)
      owed (raised e) = tt

  checked-raised :
      (s : Server) (i : ℕ) (bytes : Bytes) (e : Exc)
      → parse_datagram hash bytes ≡ raised e
      → Holds node b key i s
      → Checked (check hash env bytes s) i
  unfolding check lift return try_except ◌>>=◌ OwedBy
  checked-raised s i bytes e parsed c = rw parsed (c, tt)

  checked :
      (s : Server) (i : ℕ) (bytes : Bytes)
      → Holds node b key i s
      → Checked (check hash env bytes s) i
  checked s i bytes c = go (parse_datagram hash bytes) refl
    where
      go :
          (r : Result Datagram) → parse_datagram hash bytes ≡ r → Checked (check hash env bytes s) i
      go (raised e) h = checked-raised s i bytes e h c
      go (ok d) h = elim (Bool-cases (node =? d.client_id)) [
        | inl same ↦ checked-own s i bytes d h (sym ((=?_iff node d.client_id).0 same)) c
        | inr other ↦ checked-other s i bytes d h other c
      ]

  written :
      (i : ℕ) (w : Write) (ts : ℕ) (s : Server)
      → Holds node b key i s
      → HasPreimage hash (b ∷ key) last i
      → IsOwed w
      → (j : ℕ) × Holds node b key j (store_entry w ts s).1 × HasPreimage hash (b ∷ key) last j
  written i w ts s c from owed = elim (Bool-cases (node =? w.client_id)) [
    | inr other ↦ (i, store_entry-other hash env up b key node i w ts s other c, from)
    | inl same ↦ elim owed [
      | inl other ↦ absurd (true≢false (sym same ∙ other))
      | inr own ↦
          let there = (=?_iff node w.client_id).0 same in
          (
            w.index,
            subst (λ n. Holds n b key w.index (store_entry w ts s).1) (sym there)
                (store_entry-Holds hash env up b key w ts i s
                  (subst (λ n. Holds n b key i s) there c)),
            own,
          )
    ]
  ]

  -- The row of a write, and what is then to be cached.
  abbrev Stored : Write → Result (Option ℕ) × Server → ℕ → Type 0
  Stored w (ok o, t) i = Holds node b key i t × All (λ c. IsOwed c.0) (to_cache w o)
  Stored w (raised e, t) i = Unit

  store_row-Stored :
      (s : Server) (i : ℕ) (w : Write)
      → Holds node b key i s
      → IsOwed w
      → Stored w (store_row env w s) i
  store_row-Stored s i w c owed =
      rw (store_row-IsUp hash env up b key w s)
        (logged-Holds hash env up b key node i _ s c, (owed, tt))

  Step-Unforged :
      (s t : System)
      → ((got : Received) → admitted got ≡ true → spares node got ≡ true)
      → Step hash env limit admitted s t
      → Unforged s
      → Unforged t
  unfolding OwedBy
  Step-Unforged s t others (arrive bytes seen) c =
      let (held, owes) =
        subst (λ r. Checked r c.index) seen (checked s.server c.index bytes c.held) in
      record {
        index = c.index;
        held = held;
        from = c.from;
        owed = All-append IsOwed s.writes _ c.owed owes;
        stored = c.stored;
      }
  Step-Unforged s t others (write before w after there seen) c =
      let (owes, rest) = All-pick IsOwed before w after (subst (All IsOwed) there c.owed) in
      let (held, more) =
        subst (λ r. Stored w r c.index) seen (store_row-Stored s.server c.index w c.held owes) in
      record {
        index = c.index;
        held = held;
        from = c.from;
        owed = rest;
        stored = All-append (λ x. IsOwed x.0) s.stored _ c.stored more;
      }
  Step-Unforged s t others (cache before w ts after there) c =
      let (owes, rest) =
        All-pick (λ x. IsOwed x.0) before (w, ts) after
          (subst (All (λ x. IsOwed x.0)) there c.stored) in
      let (j, held, from) = written c.index w ts s.server c.held c.from owes in
      record { index = j; held = held; from = from; owed = c.owed; stored = rest }
  Step-Unforged s t others (registration got allowed) c = record {
    index = c.index;
    held = registration-Holds env node b key c.index got s.server (others got allowed) c.held;
    from = c.from;
    owed = c.owed;
    stored = c.stored;
  }
  Step-Unforged s t others monitor c = record {
    index = c.index;
    held = round-Holds hash env up limit node b key c.index s.server c.held;
    from = c.from;
    owed = c.owed;
    stored = c.stored;
  }

  -- With the database up, in every state that the threads of the server can reach without a
  -- registration of the node itself, however the checks of datagrams, the writes of rows and of
  -- the cache, registrations of other nodes and rounds of the monitor are interleaved, a node of
  -- the cache has its key and an index that is the one of the beginning or has a preimage that
  -- hashes to the key, and so have the writes that are still to be done.
  pub Reach-Unforged :
      (s t : System)
      → ((got : Received) → admitted got ≡ true → spares node got ≡ true)
      → Reach hash env limit admitted s t
      → Unforged s
      → Unforged t
  Reach-Unforged s t others start c = c
  Reach-Unforged s t others (later r step) c =
      Step-Unforged _ t others step (Reach-Unforged s _ others r c)
