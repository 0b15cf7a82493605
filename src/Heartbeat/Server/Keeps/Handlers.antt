-- ===== src/Heartbeat/Server/Keeps/Handlers.antt =====
-- How the handlers of the server and its monitor change the cache.
use smartedge.Base.{◌≡◌, refl, ◌∙◌, false, [], ◌∷◌, arith}
use smartedge.Base.{ℕ, Text, ◌=?◌, =?_iff, Bool-cases, inl, inr}
use smartedge.Base.Bytes.{Bytes}
use smartedge.Base.Decimal.{ℤ}
use smartedge.Base.Dict.{Dict, lookup, insert, lookup-insert}
use smartedge.Base.Exec.{ok, return, lift, ◌>>=◌}
use smartedge.Heartbeat.Server.{Entry, Env}
use smartedge.Heartbeat.Wire.{Datagram, parse_datagram}
use smartedge.Heartbeat.Server.Receive.{
  anchor_test, check_index, known, verify, accept, handle_hb_datagram,
}
use smartedge.Heartbeat.Server.Timeout.{notify_dead, mark_dead, check_node, check_nodes, sweep}
use smartedge.Heartbeat.Server.Timeout.Laws.{NodupKeys}
use smartedge.Heartbeat.Server.Keeps.{
  Changes, Closed, bind-Changes, try-Changes, return-Changes, lift-Changes, if-Changes, by_test,
  save_hb_state-Changes, get_pubkey-Changes, get_hb_state-Changes,
}

module _ {P : Text → Type 0} {R : Dict Entry → Dict Entry → Type 0} (closed : Closed P R) where
  notify_dead-Changes : (env : Env) (node : Text) → Changes R (notify_dead env node)
  unfolding notify_dead
  notify_dead-Changes env node = record {
    runs = λ s. by_test closed env.notify_ip _ _ (closed.stays s.state) (closed.stays s.state);
  }

  module _ (env : Env) (everywhere : (node : Text) → P node) (limit now : ℕ) where
    mark_dead-Changes : (node : Text) (e : Entry) → Changes R (mark_dead env node e)
    unfolding mark_dead
    mark_dead-Changes node e =
        bind-Changes closed (save_hb_state-Changes closed env node _ _ (everywhere node))
          (λ _. notify_dead-Changes env node)

    check_node-Changes : (node : Text) (e : Entry) → Changes R (check_node env limit now node e)
    unfolding check_node return
    check_node-Changes node e =
        if-Changes closed _ (mark_dead-Changes node e) (return-Changes closed tt)

    check_nodes-Changes : (items : Dict Entry) → Changes R (check_nodes env limit now items)
    unfolding check_nodes
    check_nodes-Changes [] = return-Changes closed tt
    check_nodes-Changes ((node, e) ∷ items) =
        bind-Changes closed (check_node-Changes node e) (λ _. check_nodes-Changes items)

  anchor_test-Changes : (client : Text) (i : ℤ) (last : ℕ) → Changes R (anchor_test client i last)
  unfolding anchor_test
  anchor_test-Changes client i last = record { runs = λ s. ground (arith, closed.stays s.state) }

  module _ (hash : Bytes → Bytes) (env : Env) (d : Datagram) (p : P d.client_id) where
    pub verify-Changes : Changes R (verify hash env d)
    unfolding verify
    verify-Changes = bind-Changes closed (get_pubkey-Changes closed env d.client_id p) (λ found.
        bind-Changes closed (lift-Changes closed (known found)) (λ pk.
          bind-Changes closed (get_hb_state-Changes closed env d.client_id p) (λ h.
            bind-Changes closed (anchor_test-Changes d.client_id d.index h.last_i)
              (λ _. lift-Changes closed (check_index hash pk h.last_i d.index d.w_i)))))

    pub accept-Changes : Changes R (accept hash env d)
    unfolding accept
    accept-Changes =
        bind-Changes closed verify-Changes (λ _. save_hb_state-Changes closed env d.client_id _ _ p)

    pub handle-Changes :
        (bytes : Bytes)
        → parse_datagram hash bytes ≡ ok d
        → Changes R (handle_hb_datagram hash env bytes)
    unfolding handle_hb_datagram lift ◌>>=◌
    handle-Changes bytes h = record {
      runs = λ s. rw h ((try-Changes closed accept-Changes (λ _. return-Changes closed tt)).runs s);
    }

  pub sweep-Changes :
      (env : Env) (limit : ℕ) → ((node : Text) → P node) → Changes R (sweep env limit)
  unfolding sweep
  sweep-Changes env limit everywhere = record {
    runs = λ s. (check_nodes-Changes env everywhere limit (env.now_ts s.events) s.state).runs s;
  }

-- The keys stay distinct.
abbrev pub StaysNodup : Dict Entry → Dict Entry → Type 0
StaysNodup d e = NodupKeys d → NodupKeys e

NodupKeys-insert : (k : Text) (v : Entry) (d : Dict Entry) → NodupKeys d → NodupKeys (insert k v d)
unfolding insert
NodupKeys-insert k v [] u = (unfold lookup in refl, tt)
NodupKeys-insert k v ((j, w) ∷ d) (fresh, u) = elim (Bool-cases (k =? j)) [
  | inl here ↦ rw here (fresh, u)
  | inr there ↦ rw there (
    ground (arith, lookup-insert j k v d, fresh, there, =?_iff j k, =?_iff k j),
    NodupKeys-insert k v d u,
  )
]

pub nodup_closed : Closed (λ _. Unit) StaysNodup
nodup_closed = record {
  stays = λ d u. u;
  chains = λ d e f p q u. q (p u);
  inserts = λ k v d _. NodupKeys-insert k v d;
}

-- The entry of the node stays, whatever happens to the others.
pub other_closed :
    (node : Text) → Closed (λ k. (node =? k) ≡ false) (λ d e. lookup node e ≡ lookup node d)
other_closed node = record {
  stays = λ d. refl;
  chains = λ d e f p q. q ∙ p;
  inserts = λ k v d h. lookup-insert node k v d ∙ rw h refl;
}
