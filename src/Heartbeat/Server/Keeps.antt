-- ===== src/Heartbeat/Server/Keeps.antt =====
-- How the actions of the server change its cache: a relation that holds of every change of another
-- node's entry holds of an action on other nodes.
pub mod Handlers
pub mod Registration
use smartedge.Base.{◌≡◌, refl, ◌∙◌, Bool, false, true, Option, none, some, List, [], ◌∷◌, arith}
use smartedge.Base.{ℕ, Text, ◌=?◌, =?_iff, if◌then◌else◌, Bool-cases, inl, inr}
use smartedge.Base.Bytes.{Bytes}
use smartedge.Base.Decimal.{ℤ}
use smartedge.Base.Dict.{Dict, lookup, insert, lookup-insert}
use smartedge.Base.Exec.{Exc, Exec, Result, ok, raised, return, lift, try_except, proceed, ◌>>=◌}
use smartedge.Heartbeat.Server.{
  Status, Entry, Event, Env, Server, nonempty, has_keys, entry_of, get_key, get_hb, HbRow, execute,
  save_pubkey, save_hb_state, get_pubkey, get_hb_state, stored_key, stored_hb, select, cache_key,
  cache_hb,
}
use smartedge.Heartbeat.Wire.{Datagram, parse_datagram}
use smartedge.Heartbeat.Server.Receive.{
  anchor_test, check_index, known, verify, accept, handle_hb_datagram,
}
use smartedge.Heartbeat.Server.Timeout.{notify_dead, mark_dead, check_node, check_nodes, sweep}
use smartedge.Heartbeat.Server.Timeout.Laws.{NodupKeys}

-- Every run of the action changes the cache as `R` says.
pub record Changes {A : Type 0} (R : Dict Entry → Dict Entry → Type 0) (m : Exec Server A)
    : Type 0 where
  pub runs : (s : Server) → R s.state (m s).1.state

-- What is needed of a relation, where the entries that change are those of the keys in `P`.
pub record Closed (P : Text → Type 0) (R : Dict Entry → Dict Entry → Type 0) : Type 0 where
  pub stays : (d : Dict Entry) → R d d
  pub chains : (d e f : Dict Entry) → R d e → R e f → R d f
  pub inserts : (k : Text) (v : Entry) (d : Dict Entry) → P k → R d (insert k v d)

module _ {P : Text → Type 0} {R : Dict Entry → Dict Entry → Type 0} (closed : Closed P R) where
  pub bind-Changes :
      {A B : Type 0} {m : Exec Server A} {f : A → Exec Server B}
      → Changes R m
      → ((a : A) → Changes R (f a))
      → Changes R (m >>= f)
  unfolding ◌>>=◌
  bind-Changes {A} {B} {m} {f} k c = record { runs = λ s. go s (m s).0 (m s).1 (k.runs s) }
    where
      go :
          (s : Server) (r : Result A) (t : Server)
          → R s.state t.state
          → R s.state (proceed f r t).1.state
      go s (ok a) t h = closed.chains _ _ _ h ((c a).runs t)
      go s (raised e) t h = h

  pub try-Changes :
      {A : Type 0} {m : Exec Server A} {h : Exc → Exec Server A}
      → Changes R m
      → ((e : Exc) → Changes R (h e))
      → Changes R (try_except m h)
  unfolding try_except
  try-Changes {A} {m} {h} k c = record { runs = λ s. go s (m s).0 (m s).1 (k.runs s) }
    where
      go :
          (s : Server) (r : Result A) (t : Server)
          → R s.state t.state
          → R s.state
              (elim r as (λ _. Result A × Server) [ ok a ↦ (ok a, t) | raised e ↦ h e t ]).1.state
      go s (ok a) t q = q
      go s (raised e) t q = closed.chains _ _ _ q ((c e).runs t)

  pub return-Changes : {A : Type 0} (a : A) → Changes R (return {S = Server} a)
  unfolding return
  return-Changes a = record { runs = λ s. closed.stays s.state }

  pub lift-Changes : {A : Type 0} (r : Result A) → Changes R (lift r)
  unfolding lift
  lift-Changes r = record { runs = λ s. closed.stays s.state }

  if-Changes :
      {A : Type 0} (b : Bool) {m n : Exec Server A}
      → Changes R m
      → Changes R n
      → Changes R (λ s. if b then m s else n s)
  if-Changes true k c = k
  if-Changes false k c = c

  pub by_test :
      {X : Type 0} {d : Dict Entry} (b : Bool) (x y : X × Server)
      → R d x.1.state
      → R d y.1.state
      → R d (if◌then◌else◌ {A = X × Server} b x y).1.state
  by_test true x y h k = h
  by_test false x y h k = k

  by_option :
      {A X : Type 0} {d : Dict Entry} (o : Option A) (x : X × Server) (f : A → X × Server)
      → R d x.1.state
      → ((a : A) → R d (f a).1.state)
      → R d (elim o as (λ _. X × Server) [ none ↦ x | some a ↦ f a ]).1.state
  by_option none x f h k = h
  by_option (some a) x f h k = k a

  execute-Changes : (env : Env) (e : Event) → Changes R (execute env e)
  unfolding execute
  execute-Changes env e = record {
    runs = λ s. by_test (env.write s.events e) _ _ (closed.stays s.state) (closed.stays s.state);
  }

  select-Changes : {A : Type 0} (row : List Event → Option A) (e : Event) → Changes R (select row e)
  select-Changes row e = record {
    runs = λ s. by_option (row s.events) _ _ (closed.stays s.state) (λ a. closed.stays s.state);
  }

  pub save_pubkey-Changes :
      (env : Env) (node : Text) (key : Bytes) → P node → Changes R (save_pubkey env node key)
  unfolding save_pubkey cache_key
  save_pubkey-Changes env node key p =
      bind-Changes (execute-Changes env _)
        (λ _. record { runs = λ s. closed.inserts node _ s.state p })

  pub save_hb_state-Changes :
      (env : Env) (node : Text) (i : ℕ) (st : Status)
      → P node
      → Changes R (save_hb_state env node i st)
  unfolding save_hb_state cache_hb
  save_hb_state-Changes env node i st p = record {
    runs = λ s.
        (bind-Changes {f = λ _ t. (ok tt, cache_hb node i st (env.now_ts s.events) t)}
            (execute-Changes env _)
            (λ _. record { runs = λ t. closed.inserts node _ t.state p })).runs
          s;
  }

  module _ (env : Env) (node : Text) (p : P node) where
    stored_key-Changes : (o : Option Bytes) → Changes R (stored_key env node o)
    unfolding stored_key
    stored_key-Changes none = return-Changes none
    stored_key-Changes (some key) =
        bind-Changes (save_pubkey-Changes env node key p) (λ _. return-Changes (some key))

    pub get_pubkey-Changes : Changes R (get_pubkey env node)
    unfolding get_pubkey
    get_pubkey-Changes = record {
      runs = λ s.
          by_option (nonempty (entry_of node s).public_key) _ _
            ((bind-Changes (select-Changes (λ before. env.key_row before node) (get_key node))
                stored_key-Changes).runs
              s)
            (λ key. closed.stays s.state);
    }

    stored_hb-Changes : (o : Option HbRow) → Changes R (stored_hb env node o)
    unfolding stored_hb
    stored_hb-Changes none = return-Changes _
    stored_hb-Changes (some row) =
        bind-Changes (save_hb_state-Changes env node _ _ p) (λ _. return-Changes _)

    pub get_hb_state-Changes : Changes R (get_hb_state env node)
    unfolding get_hb_state
    get_hb_state-Changes = record {
      runs = λ s. by_test (has_keys (entry_of node s)) _ _ (closed.stays s.state) (
          (bind-Changes (select-Changes (λ before. env.hb_row before node) (get_hb node))
              stored_hb-Changes).runs
            s);
    }
