-- ===== src/Heartbeat/Server/Threads/Overtaken.antt =====
-- Two handlers side by side, against the same two one after the other.
use smartedge.Base.{ℕ, ◌+◌, ◌<◌, ◌≡◌, refl, sym, ◌∙◌, Bool, true, false, some, [], ◌∷◌, arith}
use smartedge.Base.{◌=?◌, ◌&&◌, ◌||◌}
use mathlib.Core.Path.{subst}
use smartedge.Base.Bytes.{Bytes}
use smartedge.Base.Decimal.{ℤ, pos, negsuc}
use smartedge.Base.Exec.{ok}
use smartedge.Heartbeat.Chain.{hash_n}
use smartedge.Heartbeat.Wire.{Datagram, parse_datagram}
use smartedge.Heartbeat.Server.{Env, Server, log, upsert_hb, alive}
use smartedge.Heartbeat.Server.Calls.{IsUp}
use smartedge.Heartbeat.Server.Register.{Received}
use smartedge.Heartbeat.Server.Receive.{rounds, equals, handle_hb_datagram}
use smartedge.Heartbeat.Server.Receive.Laws.{is_fresh, handle-is_fresh}
use smartedge.Heartbeat.Server.Guard.{Holds, taken-Holds}
use smartedge.Heartbeat.Server.Threads.{
  Write, check, store_entry, Reach, start, later, arrive, write, cache,
}
use smartedge.Heartbeat.Server.Threads.Laws.{
  check-own, store_row-IsUp, logged-Holds, store_entry-Holds,
}

-- The write of a datagram.
abbrev pub write_of : Datagram → Write
write_of d = record { client_id = d.client_id; index = rounds d.index }

module _ (hash : Bytes → Bytes) (pk w w' : Bytes) (last : ℕ) where
  abbrev fresh_index : ℕ → ℤ → Bytes → Bool
  fresh_index k i v = (equals i (k + 1) || equals i (k + 2)) && hash_n hash v (rounds i) =? pk

  -- Of two fresh indices the higher one is fresh after the lower, and not the other way round.
  ordered :
      (i i' : ℤ)
      → fresh_index last i w ≡ true
      → fresh_index last i' w' ≡ true
      → rounds i < rounds i'
      → (fresh_index (rounds i) i' w' ≡ true) × (fresh_index (rounds i') i w ≡ false)
  ordered (pos n) (pos m) h h' l = (ground (arith, h, h', l), ground (arith, h, h', l))
  ordered (pos n) (negsuc m) h h' l = absurd (ground (arith, h'))
  ordered (negsuc n) i' h h' l = absurd (ground (arith, h))

module _ (hash : Bytes → Bytes) (env : Env) (up : IsUp env) (b : ℕ) (key : Bytes) where
  stale-Holds :
      (d : Datagram) (bytes : Bytes) (last : ℕ) (s : Server)
      → parse_datagram hash bytes ≡ ok d
      → Holds d.client_id b key last s
      → is_fresh hash (b ∷ key) last d ≡ false
      → Holds d.client_id b key last (handle_hb_datagram hash env bytes s).1
  stale-Holds d bytes last s parsed c stale =
      rw (handle-is_fresh hash env up d b key last c.status s c.cached bytes parsed, stale) c

  module _ (limit : ℕ) (admitted : Received → Bool) (d d' : Datagram) (bytes bytes' : Bytes)
      (last : ℕ) (s : Server) (same : d'.client_id ≡ d.client_id) where
    there : (i : ℕ) (t : Server) → Holds d.client_id b key i t → Holds d'.client_id b key i t
    there i t = subst (λ n. Holds n b key i t) (sym same)

    back : (i : ℕ) (t : Server) → Holds d'.client_id b key i t → Holds d.client_id b key i t
    back i t = subst (λ n. Holds n b key i t) same

    -- Neither handler waits for the other.
    both_checked :
        parse_datagram hash bytes ≡ ok d
        → parse_datagram hash bytes' ≡ ok d'
        → Holds d.client_id b key last s
        → is_fresh hash (b ∷ key) last d ≡ true
        → is_fresh hash (b ∷ key) last d' ≡ true
        → Reach hash env limit admitted
            (record { server = s; writes = []; stored = [] })
            (record { server = s; writes = write_of d ∷ write_of d' ∷ []; stored = [] })
    both_checked parsed parsed' c fresh fresh' =
        let seen : check hash env bytes s ≡ (ok (some (write_of d)), s) =
          check-own hash env up b key d bytes last s parsed c ∙ rw fresh refl in
        let seen' : check hash env bytes' s ≡ (ok (some (write_of d')), s) =
          check-own hash env up b key d' bytes' last s parsed' (there last s c) ∙ rw fresh' refl in
        later (later start (arrive bytes seen)) (arrive bytes' seen')

    -- The second handler writes first.
    second_first :
        Holds d.client_id b key last s
        → (t : Server) × Reach hash env limit admitted
            (record { server = s; writes = write_of d ∷ write_of d' ∷ []; stored = [] })
            (record { server = t; writes = []; stored = [] })
          × Holds d.client_id b key (rounds d.index) t
    second_first c =
        let row = λ (v : Datagram) (u : Server).
          log u (upsert_hb v.client_id (rounds v.index) (env.now_ts u.events) alive) in
        let t = (store_entry (write_of d') (env.now_ts s.events) (row d' s)).1 in
        let held = back (rounds d'.index) t (
          store_entry-Holds hash env up b key (write_of d') (env.now_ts s.events) last (row d' s)
            (logged-Holds hash env up b key d'.client_id last _ s (there last s c))) in
        (
          (store_entry (write_of d) (env.now_ts t.events) (row d t)).1,
          later
              (later
                (later
                  (later start (
                    write (write_of d ∷ []) (write_of d') [] refl
                      (store_row-IsUp hash env up b key (write_of d') s)))
                  (cache [] (write_of d') (env.now_ts s.events) [] refl))
                (write [] (write_of d) [] refl (store_row-IsUp hash env up b key (write_of d) t)))
              (cache [] (write_of d) (env.now_ts t.events) [] refl),
          store_entry-Holds hash env up b key (write_of d) (env.now_ts t.events) (rounds d'.index)
              (row d t) (logged-Holds hash env up b key d.client_id (rounds d'.index) _ t held),
        )

    -- With the database up, of two datagrams of one node of the cache that are both fresh, both
    -- handlers can have checked before either writes, and from there a run of the threads in which
    -- both write ends with the lower index; one handler after the other, in either order, ends
    -- with the higher one.
    pub Reach-overtaken :
        parse_datagram hash bytes ≡ ok d
        → parse_datagram hash bytes' ≡ ok d'
        → Holds d.client_id b key last s
        → is_fresh hash (b ∷ key) last d ≡ true
        → is_fresh hash (b ∷ key) last d' ≡ true
        → rounds d.index < rounds d'.index
        → Reach hash env limit admitted
            (record { server = s; writes = []; stored = [] })
            (record { server = s; writes = write_of d ∷ write_of d' ∷ []; stored = [] })
          × ((t : Server) × Reach hash env limit admitted
                (record { server = s; writes = write_of d ∷ write_of d' ∷ []; stored = [] })
                (record { server = t; writes = []; stored = [] })
              × Holds d.client_id b key (rounds d.index) t)
          × Holds d.client_id b key
              (rounds d'.index)
              (handle_hb_datagram hash env bytes' (handle_hb_datagram hash env bytes s).1).1
          × Holds d.client_id b key
              (rounds d'.index)
              (handle_hb_datagram hash env bytes (handle_hb_datagram hash env bytes' s).1).1
    unfolding is_fresh
    Reach-overtaken parsed parsed' c fresh fresh' below =
        let (after, before) =
          ordered hash (b ∷ key) d.w_i d'.w_i last d.index d'.index fresh fresh' below in
        let one = (handle_hb_datagram hash env bytes s).1 in
        let two = (handle_hb_datagram hash env bytes' s).1 in
        (
          both_checked parsed parsed' c fresh fresh',
          second_first c,
          back (rounds d'.index) (handle_hb_datagram hash env bytes' one).1 (
              taken-Holds hash env up b key d' (rounds d.index) one bytes' parsed'
                (there (rounds d.index) one
                  (taken-Holds hash env up b key d last s bytes parsed c fresh))
                after),
          stale-Holds d bytes (rounds d'.index) two parsed
              (back (rounds d'.index) two
                (taken-Holds hash env up b key d' last s bytes' parsed' (there last s c) fresh'))
              before,
        )
