-- ===== src/Heartbeat/Tests/Sender.antt =====
-- The sender: its chain, its runs, and its control loop.
use smartedge.Base.{
  ◌++◌, ◌≤◌, ℕ, zero, suc, ◌≡◌, refl, Bool, true, false, none, some, List, [], ◌∷◌, arith,
}
use smartedge.Base.{codes, leb, get_elem?, ◌=?◌, if◌then◌else◌, length}
use smartedge.Base.Bytes.{Bytes}
use smartedge.Base.Dict.{lookup}
use smartedge.Base.Exec.{ok, raised, os_error}
use smartedge.Heartbeat.Chain.{
  KeyDir, Disk, KeyFile, public_key_file, join, hash_n, generate_winternitz_chain,
}
use smartedge.Heartbeat.Chain.Laws.{generate-chain}
use smartedge.Heartbeat.Client.Laws.{send_loop-ends}
use smartedge.Heartbeat.Client.{Tick, send_loop}
use smartedge.Heartbeat.Server.{alive}
use smartedge.Heartbeat.Server.Calls.{IsCached}
use smartedge.Heartbeat.Server.Register.{store}
use smartedge.Heartbeat.Monitor.{JoinState, Monitor, Answers, round}
use smartedge.Heartbeat.Monitor.Laws.{IsSound, round-IsSound}
use smartedge.Heartbeat.Run.{deliver}
use smartedge.Heartbeat.Run.Sender.{generated_run}
use smartedge.Heartbeat.Tests.{
  sum, toy, up, up-IsUp, node, seed, node-IsField, beat1-IsWellSent, beat2-IsWellSent, key, time,
  empty_server,
}

abbrev chain_files : KeyDir
chain_files = record {
  private_key = some seed;
  winternitz_chain = some (5 ∷ 16 ∷ 49 ∷ 47 ∷ 41 ∷ []);
  public_key = some (41 ∷ []);
}

-- The file of the public key cannot be written.
abbrev full_at_the_end : KeyFile → Bool
full_at_the_end public_key_file = false
full_at_the_end _ = true

abbrev nearly_full : Disk
nearly_full = record { makes_dir = true; writes = full_at_the_end }

abbrev no_files : KeyDir
no_files = record { private_key = none; winternitz_chain = none; public_key = none }

generate-chain_example :
    (chain : List Bytes) × ((generate_winternitz_chain toy nearly_full seed 4 no_files).0
      ≡ raised os_error)
    × ((generate_winternitz_chain toy nearly_full seed 4 no_files).1 ≡ record {
      private_key = some seed;
      winternitz_chain = some (join chain);
      public_key = none;
    })
    × (length chain ≡ 5)
    × ((i : ℕ) → get_elem? chain i ≡ (if leb i 4 then some (hash_n toy seed i) else none))
generate-chain_example = generate-chain toy nearly_full seed 4 no_files

abbrev good_disk : Disk
good_disk = record { makes_dir = true; writes = λ _. true }

-- A point of 32 bytes.
repeated : ℕ → ℕ → Bytes
repeated b zero = []
repeated b (suc n) = b ∷ repeated b n

generated :
    generate_winternitz_chain toy good_disk seed 4 no_files
    ≡ (ok (seed ∷ (16 ∷ []) ∷ (49 ∷ []) ∷ (47 ∷ []) ∷ (41 ∷ []) ∷ []), chain_files)
unfolding generate_winternitz_chain toy sum join ◌=?◌
generated = refl

abbrev ticks : List Tick
ticks =
    record { timestamp = time; delivered = true }
    ∷ record { timestamp = time; delivered = true }
    ∷ []

generated_run_example : IsCached node key [] 2 alive (
    deliver toy up
      (send_loop toy node (seed ∷ (16 ∷ []) ∷ (49 ∷ []) ∷ (47 ∷ []) ∷ (41 ∷ []) ∷ []) 1 ticks)
      (store up node (key ∷ []) empty_server).1)
unfolding lookup
generated_run_example =
    generated_run toy node seed 4 up empty_server
      (seed ∷ (16 ∷ []) ∷ (49 ∷ []) ∷ (47 ∷ []) ∷ (41 ∷ []) ∷ []) good_disk no_files chain_files key
      [] ticks generated refl up-IsUp node-IsField refl (refl, (refl, tt)) (omega arith)
      (beat1-IsWellSent, (beat2-IsWellSent, tt))

send_loop-ends_example :
    (send_loop toy node
        (seed ∷ (16 ∷ []) ∷ (49 ∷ []) ∷ (47 ∷ []) ∷ (41 ∷ []) ∷ [])
        1
        ((ticks ++ ticks) ++ ticks)
      ≡ send_loop toy node
          (seed ∷ (16 ∷ []) ∷ (49 ∷ []) ∷ (47 ∷ []) ∷ (41 ∷ []) ∷ [])
          1
          (ticks ++ ticks))
    × (length (
          send_loop toy node
            (seed ∷ (16 ∷ []) ∷ (49 ∷ []) ∷ (47 ∷ []) ∷ (41 ∷ []) ∷ [])
            1
            (ticks ++ ticks))
        ≤ 4)
send_loop-ends_example =
    send_loop-ends toy node (seed ∷ (16 ∷ []) ∷ (49 ∷ []) ∷ (47 ∷ []) ∷ (41 ∷ []) ∷ [])
      (ticks ++ ticks) ticks (omega arith)

-- A node that runs for one target learns of another.
abbrev running : Monitor
running = record {
  hb_proc = true;
  running_for = some (record { client_id = node; coord_ip = time; udp_port = 5008; interval = 1 });
  has_keys = true;
  backoff = 1;
}

abbrev moved : JoinState
moved = record {
  joined = true;
  client_id = some node;
  ap_swarm_ip = some (codes "10.0.3.7");
  hb_udp_port = none;
  hb_interval = none;
}

abbrev all_well : Answers
all_well = record { is_alive = true; generates = true; acknowledges = true }

round-IsSound_example : IsSound (round all_well moved running)
round-IsSound_example = round-IsSound all_well moved running (record { target = refl; keys = refl })
