-- ===== src/Heartbeat/Tests/Threads.antt =====
-- Two heartbeats of one node, repeated and side by side.
use smartedge.Base.{ℕ, ◌≡◌, refl, true, some, inl, List, [], ◌∷◌, ◌++◌}
use smartedge.Base.{◌=?◌, ◌∙◌, codes, arith}
use smartedge.Base.Bytes.{Bytes, has_pair, split_once, strip, is_space}
use smartedge.Base.Hex.{from_hex}
use smartedge.Base.Decimal.{pos}
use smartedge.Base.Dict.{lookup}
use smartedge.Base.Exec.{ok}
use smartedge.Heartbeat.Chain.{hash_n}
use smartedge.Heartbeat.Wire.{Datagram, encode_heartbeat, parse_datagram}
use smartedge.Heartbeat.Wire.Laws.{IsSeparable, payload_of, parse-encode}
use smartedge.Heartbeat.Server.{Server, registered, alive, log, upsert_hb}
use smartedge.Heartbeat.Server.Receive.{handle_hb_datagram}
use smartedge.Heartbeat.Server.Receive.Laws.{is_fresh}
use smartedge.Heartbeat.Server.Guard.{Op, datagram, round, acts, Moves, Holds, acts-Moves}
use smartedge.Heartbeat.Server.Replay.{acts-replayed}
use smartedge.Heartbeat.Server.Threads.{
  check, System, Reach, start, later, arrive, write, registration,
}
use smartedge.Heartbeat.Server.Threads.Laws.{check-own, store_row-IsUp}
use smartedge.Heartbeat.Server.Threads.Overtaken.{write_of, Reach-overtaken}
use smartedge.Heartbeat.Server.Register.{Received, received, parse_registration, handle_tcp_client}
use smartedge.Heartbeat.Server.Keeps.Registration.{spares, registration_of}
use smartedge.Base.Utf8.{decode}
use smartedge.Heartbeat.Server.Threads.Unforged.{Unforged, Reach-Unforged}
use smartedge.Heartbeat.Tests.{
  toy, sum, up, up-IsUp, node, key, server, server-IsCached, node-IsField, time, time-IsField,
  first_beat, first_beat-parsed,
}

abbrev fresh_server : Server
fresh_server = server (some 0) registered

server-Holds : Holds node key [] 0 fresh_server
unfolding lookup
server-Holds = record { status = registered; cached = server-IsCached; distinct = (refl, tt) }

abbrev first : Bytes
first = encode_heartbeat toy node time 1 (47 ∷ [])

abbrev second : Bytes
second = encode_heartbeat toy node time 2 (49 ∷ [])

abbrev second_beat : Datagram
second_beat = record { client_id = node; ts_str = time; index = pos 2; w_i = 49 ∷ [] }

second_beat-IsSeparable : IsSeparable (49 ∷ []) (toy (payload_of node time 2 ++ 49 ∷ []))
unfolding has_pair toy sum
second_beat-IsSeparable = record { preimage = refl; digest = refl }

second_beat-parsed : parse_datagram toy second ≡ ok second_beat
second_beat-parsed =
    parse-encode toy node time 2 (49 ∷ []) node-IsField time-IsField refl second_beat-IsSeparable

first_is_fresh : is_fresh toy (key ∷ []) 0 first_beat ≡ true
unfolding is_fresh hash_n toy sum ◌=?◌
first_is_fresh = refl

second_is_fresh : is_fresh toy (key ∷ []) 0 second_beat ≡ true
unfolding is_fresh hash_n toy sum ◌=?◌
second_is_fresh = refl

abbrev ops : List Op
ops = datagram second ∷ datagram (1 ∷ 2 ∷ []) ∷ round ∷ datagram first ∷ []

acts-Moves_example :
    (j : ℕ) × (Moves toy (key ∷ []) 0 4 j)
    × Holds node key [] j (acts toy up 5000000 ops fresh_server)
acts-Moves_example = acts-Moves toy up up-IsUp key [] 5000000 node ops 0 fresh_server server-Holds

acts-replayed_example :
    handle_hb_datagram toy up first (acts toy up 5000000 (datagram first ∷ ops) fresh_server)
    ≡ (ok tt, acts toy up 5000000 (datagram first ∷ ops) fresh_server)
acts-replayed_example =
    acts-replayed toy up 5000000 key [] first first_beat 0 fresh_server ops up-IsUp
      first_beat-parsed server-Holds first_is_fresh

abbrev quiet : System
quiet = record { server = fresh_server; writes = []; stored = [] }

-- Both heartbeats are checked, and neither is written.
abbrev both : System
both = record {
  server = fresh_server;
  writes = write_of first_beat ∷ write_of second_beat ∷ [];
  stored = [];
}

Reach-overtaken_example :
    Reach toy up 5000000 (spares node) quiet both
    × ((t : Server) × Reach toy up 5000000
          (spares node)
          both
          (record { server = t; writes = []; stored = [] })
        × Holds node key [] 1 t)
    × Holds node key [] 2
        (handle_hb_datagram toy up second (handle_hb_datagram toy up first fresh_server).1).1
    × Holds node key [] 2
        (handle_hb_datagram toy up first (handle_hb_datagram toy up second fresh_server).1).1
Reach-overtaken_example =
    Reach-overtaken toy up up-IsUp key [] 5000000 (spares node) first_beat second_beat first second
      0 fresh_server refl first_beat-parsed second_beat-parsed server-Holds first_is_fresh
      second_is_fresh (omega arith)

quiet-Unforged : Unforged toy up up-IsUp 5000000 (spares node) node key [] 0 quiet
quiet-Unforged = record { index = 0; held = server-Holds; from = inl refl; owed = tt; stored = tt }

-- A registration of another node.
abbrev stranger : Received
stranger = received (codes "x|4d")

stranger-spares : spares node stranger ≡ true
unfolding spares registration_of decode parse_registration codes split_once strip is_space from_hex
    ◌=?◌
stranger-spares = refl

first-checked : check toy up first fresh_server ≡ (ok (some (write_of first_beat)), fresh_server)
first-checked =
    check-own toy up up-IsUp key [] first_beat first 0 fresh_server first_beat-parsed server-Holds
    ∙ rw first_is_fresh refl

-- The first heartbeat is checked, another node is registered, and the row is written.
abbrev busy : Server
busy = (handle_tcp_client up stranger fresh_server).1

abbrev busy_system : System
busy_system = record {
  server = log busy (upsert_hb node 1 (up.now_ts busy.events) alive);
  writes = [];
  stored = (write_of first_beat, up.now_ts busy.events) ∷ [];
}

busy_run : Reach toy up 5000000 (spares node) quiet busy_system
busy_run =
    later (later (later start (arrive first first-checked)) (registration stranger stranger-spares))
      (write [] (write_of first_beat) [] refl
        (store_row-IsUp toy up up-IsUp key [] (write_of first_beat) busy))

Reach-Unforged_example : Unforged toy up up-IsUp 5000000 (spares node) node key [] 0 busy_system
Reach-Unforged_example =
    Reach-Unforged toy up up-IsUp 5000000 (spares node) node key [] 0 quiet busy_system (λ got h. h)
      busy_run quiet-Unforged
