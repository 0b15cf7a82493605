-- ===== src/Heartbeat/Server/Timeout/Laws.antt =====
-- What one round of the monitor does to each entry.
use smartedge.Base.{ℕ, ◌≡◌, refl, sym, ◌∙◌, false, some, [], ◌∷◌, ◌=?◌, =?_iff, =?_refl, arith}
use smartedge.Base.{Text, or_default, if◌then◌else◌, Option, none, Bool-cases, inl, inr}
use mathlib.Core.Path.{subst}
use mathlib.Core.Option.{some-injective}
use smartedge.Base.Dict.{Dict, lookup, lookup-insert, lookup-insert_self}
use smartedge.Base.Exec.{ok}
use smartedge.Heartbeat.Server.{dead, Entry, Env, Server, cache_hb, entry_of}
use smartedge.Heartbeat.Server.Calls.{IsUp, after_hb, save_hb_state-IsUp}
use smartedge.Heartbeat.Server.Timeout.{overdue, mark_dead, check_node, check_nodes, sweep}

none≢some : {e : Entry} → ◌≡◌ {A = Option Entry} none (some e) → ⊥
none≢some h = cc

-- The keys of a dict are distinct.
abbrev pub NodupKeys : Dict Entry → Type 0
NodupKeys [] = Unit
NodupKeys ((k, e) ∷ d) = (lookup k d ≡ none) × NodupKeys d

-- An overdue entry is dead, with its key and index; any other is as it was.
abbrev pub Swept : ℕ → ℕ → Entry → Entry → Type 0
Swept limit now e f = f ≡ (
    if overdue limit now e
    then record e { last_i = some (or_default e.last_i 0); status = some dead; last_ts = f.last_ts }
    else e)

module _ (env : Env) (up : IsUp env) (node : Text) (e : Entry) (s : Server) where
  abbrev dead_now : Server
  dead_now = after_hb env node (or_default e.last_i 0) dead s

  mark_dead-IsUp :
      ((mark_dead env node e s).0 ≡ ok tt) × ((mark_dead env node e s).1.state ≡ dead_now.state)
  unfolding mark_dead
  mark_dead-IsUp = rw (save_hb_state-IsUp env up node (or_default e.last_i 0) dead s) (ground arith)

module _ (env : Env) (up : IsUp env) (limit now : ℕ) where
  check_node-ok :
      (node : Text) (e : Entry) (s : Server) → (check_node env limit now node e s).0 ≡ ok tt
  unfolding check_node
  check_node-ok node e s = ground (arith, (mark_dead-IsUp env up node e s).0)

  check_node-other :
      (node j : Text) (e : Entry) (s : Server)
      → (j =? node) ≡ false
      → lookup j (check_node env limit now node e s).1.state ≡ lookup j s.state
  unfolding check_node cache_hb
  check_node-other node j e s h = ground (
    arith,
    (mark_dead-IsUp env up node e s).1,
    lookup-insert j node
        (record (entry_of node s) {
          last_i = some (or_default e.last_i 0);
          status = some dead;
          last_ts = some (env.now_ts s.events);
        })
        s.state,
  )

  check_node_self :
      (node : Text) (e : Entry) (s : Server)
      → lookup node s.state ≡ some e
      → (f : Entry) × (lookup node (check_node env limit now node e s).1.state ≡ some f)
        × Swept limit now e f
  unfolding check_node cache_hb
  check_node_self node e s h = elim (Bool-cases (overdue limit now e)) [
    | inl late ↦ (
      record e {
        last_i = some (or_default e.last_i 0);
        status = some dead;
        last_ts = some (env.now_ts s.events);
      },
      rw late (rw ((mark_dead-IsUp env up node e s).1, h) (lookup-insert_self node _ s.state)),
      ground arith,
    )
    | inr fine ↦ (e, rw fine h, ground arith)
  ]

  check_nodes-cons :
      (node : Text) (e : Entry) (items : Dict Entry) (s : Server)
      → check_nodes env limit now ((node, e) ∷ items) s
        ≡ check_nodes env limit now items (check_node env limit now node e s).1
  unfolding check_nodes
  check_nodes-cons node e items s = rw (check_node-ok node e s)

  check_nodes-other :
      (items : Dict Entry) (j : Text) (s : Server)
      → lookup j items ≡ none
      → lookup j (check_nodes env limit now items s).1.state ≡ lookup j s.state
  unfolding lookup
  check_nodes-other [] j s h = unfold check_nodes in refl
  check_nodes-other ((node, e) ∷ items) j s h = rw check_nodes-cons (
      check_nodes-other items j (check_node env limit now node e s).1 (ground arith)
      ∙ check_node-other node j e s (ground arith))

  -- An entry of another key stands in the state as it stood before.
  kept :
      (node : Text) (e : Entry) (items : Dict Entry) (s : Server)
      → lookup node items ≡ none
      → ((k : Text) (g : Entry) → lookup k ((node, e) ∷ items) ≡ some g → lookup k s.state ≡ some g)
      → (k : Text) (g : Entry) → lookup k items ≡ some g
      → lookup k (check_node env limit now node e s).1.state ≡ some g
  unfolding lookup
  kept node e items s fresh same k g h = elim (Bool-cases (k =? node)) [
    | inl here ↦
        absurd (
          none≢some (sym fresh ∙ (subst (λ n. lookup n items ≡ some g) ((=?_iff k node).0 here) h)))
    | inr there ↦ check_node-other node k e s there ∙ same k g (rw there h)
  ]

  check_nodes-Swept :
      (items : Dict Entry) (j : Text) (e : Entry) (s : Server)
      → NodupKeys items
      → ((k : Text) (g : Entry) → lookup k items ≡ some g → lookup k s.state ≡ some g)
      → lookup j items ≡ some e
      → (f : Entry) × (lookup j (check_nodes env limit now items s).1.state ≡ some f)
        × Swept limit now e f
  unfolding lookup
  check_nodes-Swept [] j e s u same h = absurd (none≢some h)
  check_nodes-Swept ((node, e0) ∷ items) j e s (fresh, u) same h =
      rw check_nodes-cons (elim (Bool-cases (j =? node)) [
        | inl here ↦
            let (f, found, swept) = check_node_self node e0 s (same node e0 (rw =?_refl)) in
            let at : lookup j
                  (check_nodes env limit now items (check_node env limit now node e0 s).1).1.state
                ≡ some f =
              rw ((=?_iff j node).0 here) (
                check_nodes-other items node (check_node env limit now node e0 s).1 fresh
                ∙ found) in
            (f, at, subst (λ g. Swept limit now g f) (some-injective e0 e (rw here at h)) swept)
        | inr there ↦
            check_nodes-Swept items j e (check_node env limit now node e0 s).1 u
              (kept node e0 items s fresh same) (rw there at h)
      ])

-- After a round of the monitor with the database up, each entry is dead if it was overdue, with
-- its key and index as before, and is unchanged if it was not.
pub sweep-Swept :
    (env : Env) (limit : ℕ) (s : Server) (j : Text) (e : Entry)
    → IsUp env
    → NodupKeys s.state
    → lookup j s.state ≡ some e
    → (f : Entry) × (lookup j (sweep env limit s).1.state ≡ some f)
      × Swept limit (env.now_ts s.events) e f
unfolding sweep
sweep-Swept env limit s j e up u h =
    check_nodes-Swept env up limit (env.now_ts s.events) s.state j e s u (λ k g p. p) h
