-- ===== src/Heartbeat/Tests.antt =====
-- Runs of the heartbeat protocol with a small hash function, and the theorems at them.
mod Threads
mod Sender
use smartedge.Base.{
  ℕ, zero, suc, ◌+◌, ◌*◌, ◌%◌, ◌≡◌, refl, true, Option, none, some, List, [], ◌∷◌, ◌++◌, arith,
}
use smartedge.Base.{codes, leb, get_elem?, ◌=?◌, if◌then◌else◌, Text, length}
use smartedge.Base.Bytes.{Bytes, bar, has_pair, has_char, strip, is_space}
use smartedge.Base.Decimal.{pos}
use smartedge.Base.Dict.{lookup}
use smartedge.Base.{inl}
use smartedge.Base.Utf8.{decode}
use smartedge.Base.Exec.{ok, raised, value_error}
use smartedge.Heartbeat.Chain.{KeyDir, join, hash_n, load_chain, generate_winternitz_chain}
use smartedge.Heartbeat.Chain.Laws.{generate-chain, load_chain-join}
use smartedge.Heartbeat.Wire.{Datagram, encode_heartbeat, parse_datagram}
use smartedge.Heartbeat.Wire.Laws.{
  IsField, IsSeparable, payload_of, parse-encode, parse-encode_lost,
}
use smartedge.Heartbeat.Client.{Tick, registration_message, send_loop}
use smartedge.Heartbeat.Server.{Status, registered, alive, Entry, Env, Server}
use smartedge.Heartbeat.Server.Calls.{IsUp, IsCached, after_hb}
use smartedge.Heartbeat.Server.Register.{parse_registration, store}
use smartedge.Heartbeat.Server.Register.Laws.{
  decode-registration_message, store-new, store-IsCached,
}
use smartedge.Heartbeat.Server.Receive.{handle_hb_datagram, rounds}
use smartedge.Heartbeat.Server.Receive.Laws.{is_fresh, handle-is_fresh}
use smartedge.Heartbeat.Server.Timeout.{sweep}
use smartedge.Heartbeat.Server.Timeout.Laws.{Swept, sweep-Swept}
use smartedge.Heartbeat.Monitor.{JoinState, Monitor, Answers, round}
use smartedge.Heartbeat.Monitor.Laws.{IsSound, round-IsSound}
use smartedge.Heartbeat.Run.{Beat, deliver, messages, IsWellSent, deliver-Follows, deliver-Beyond}
use smartedge.Heartbeat.Run.Sender.{generated_run}

sum : Bytes → ℕ
sum [] = 0
sum (b ∷ bs) = b + sum bs

-- A hash of one byte.
toy : Bytes → Bytes
unfolding sum
toy bs = (sum bs * 3 + 1) % 101 ∷ []

abbrev up : Env
up = record {
  write = λ _ _. true;
  key_row = λ _ _. some none;
  hb_row = λ _ _. some none;
  send = λ _ _. true;
  now_ts = λ _. 90000000;
  notify_ip = true;
}

up-IsUp : IsUp up
up-IsUp before e = refl

abbrev node : Text
node = 110 ∷ 49 ∷ []

-- The seed, and a chain of ten links.
abbrev seed : Bytes
seed = 5 ∷ []

abbrev server : Option ℕ → Status → Server
server last st = record {
  state =
      (
        node,
        record {
          public_key = some (41 ∷ []);
          last_i = last;
          status = some st;
          last_ts = some 1000000;
        },
      )
      ∷ [];
  events = [];
}

node-IsField : IsField node
unfolding has_char
node-IsField = record { ascii = (omega arith, (omega arith, tt)); no_bar = refl }

abbrev beat : ℕ → Beat
beat i = record { timestamp = 49 ∷ 50 ∷ []; index = i }

time-IsField : IsField (49 ∷ 50 ∷ [])
unfolding has_char
time-IsField = record { ascii = (omega arith, (omega arith, tt)); no_bar = refl }

beat1-IsWellSent : IsWellSent toy node seed 4 (beat 1)
unfolding has_pair hash_n toy sum
beat1-IsWellSent = record {
  time = time-IsField;
  has_time = refl;
  in_chain = omega arith;
  separable = record { preimage = refl; digest = refl };
}

beat2-IsWellSent : IsWellSent toy node seed 4 (beat 2)
unfolding has_pair hash_n toy sum
beat2-IsWellSent = record {
  time = time-IsField;
  has_time = refl;
  in_chain = omega arith;
  separable = record { preimage = refl; digest = refl };
}

beat3-IsWellSent : IsWellSent toy node seed 4 (beat 3)
unfolding has_pair hash_n toy sum
beat3-IsWellSent = record {
  time = time-IsField;
  has_time = refl;
  in_chain = omega arith;
  separable = record { preimage = refl; digest = refl };
}

abbrev key : ℕ
key = 41

seed-key : hash_n toy seed 4 ≡ key ∷ []
unfolding hash_n toy sum
seed-key = refl

server-IsCached : IsCached node key [] 0 registered (server (some 0) registered)
unfolding lookup ◌=?◌
server-IsCached = record { last_ts = some 1000000; entry = refl }

-- The first two heartbeats, or the first and the third.
deliver-Follows_example :
    IsCached node key [] 3 alive (
      deliver toy up (messages toy node seed 4 (beat 1 ∷ beat 3 ∷ [])) (server (some 0) registered))
deliver-Follows_example =
    deliver-Follows toy node seed 4 up up-IsUp node-IsField key [] seed-key (beat 1 ∷ beat 3 ∷ []) 0
      registered (server (some 0) registered) (beat1-IsWellSent, (beat3-IsWellSent, tt))
      (omega arith, omega arith, (omega arith, omega arith, tt)) server-IsCached

deliver-Beyond_example :
    deliver toy up (messages toy node seed 4 (beat 3 ∷ [])) (server (some 0) registered)
    ≡ server (some 0) registered
deliver-Beyond_example =
    deliver-Beyond toy node seed 4 up up-IsUp node-IsField key [] seed-key (beat 3 ∷ []) 0
      registered (server (some 0) registered) (beat3-IsWellSent, tt) (omega arith, tt)
      server-IsCached

abbrev time : Text
time = 49 ∷ 50 ∷ []

abbrev first_beat : Datagram
first_beat = record { client_id = node; ts_str = time; index = pos 1; w_i = 47 ∷ [] }

first_beat-IsSeparable : IsSeparable (47 ∷ []) (toy (payload_of node time 1 ++ 47 ∷ []))
unfolding has_pair toy sum
first_beat-IsSeparable = record { preimage = refl; digest = refl }

parse-encode_example :
    parse_datagram toy (encode_heartbeat toy node time 1 (47 ∷ [])) ≡ ok first_beat
parse-encode_example =
    parse-encode toy node time 1 (47 ∷ []) node-IsField time-IsField refl first_beat-IsSeparable

-- A hash whose value is always two separators.
bars : Bytes → Bytes
bars bs = bar ∷ bar ∷ []

parse-encode_lost_example :
    parse_datagram bars (encode_heartbeat bars node time 1 (47 ∷ [])) ≡ raised value_error
unfolding has_pair bars
parse-encode_lost_example =
    parse-encode_lost bars node time 1 (47 ∷ []) node-IsField time-IsField refl refl refl

first_beat-parsed : parse_datagram toy (encode_heartbeat toy node time 1 (47 ∷ [])) ≡ ok first_beat
first_beat-parsed =
    parse-encode toy node time 1 (47 ∷ []) node-IsField time-IsField refl first_beat-IsSeparable

handle-is_fresh_example :
    handle_hb_datagram toy up
      (encode_heartbeat toy node time 1 (47 ∷ []))
      (server (some 0) registered)
    ≡ (
      ok tt,
      (if is_fresh toy (key ∷ []) 0 first_beat
          then after_hb up node (rounds (pos 1)) alive (server (some 0) registered)
          else server (some 0) registered),
    )
handle-is_fresh_example =
    handle-is_fresh toy up up-IsUp first_beat key [] 0 registered (server (some 0) registered)
      server-IsCached (encode_heartbeat toy node time 1 (47 ∷ [])) first_beat-parsed

abbrev stale : Entry
stale = record {
  public_key = some (41 ∷ []);
  last_i = some 3;
  status = some alive;
  last_ts = some 1000000;
}

stale-present : lookup node (server (some 3) alive).state ≡ some stale
unfolding lookup ◌=?◌
stale-present = refl

sweep-Swept_example :
    (f : Entry) × (lookup node (sweep up 5000000 (server (some 3) alive)).1.state ≡ some f)
    × Swept 5000000 90000000 stale f
unfolding lookup
sweep-Swept_example =
    sweep-Swept up 5000000 (server (some 3) alive) node stale up-IsUp (refl, tt) stale-present

-- A name that is not of ASCII alone.
abbrev accented : Text
accented = 233 ∷ 49 ∷ []

decode-registration_message_example :
    (msg : Text) × (decode (registration_message accented (7 ∷ 255 ∷ [])) ≡ some msg)
    × (parse_registration msg ≡ some (accented, 7 ∷ 255 ∷ []))
unfolding has_char strip is_space
decode-registration_message_example =
    decode-registration_message accented (7 ∷ 255 ∷ []) (inl (omega arith), (inl (omega arith), tt))
      refl refl refl (omega arith, (omega arith, tt))

abbrev empty_server : Server
empty_server = record { state = []; events = [] }

-- A live node that registers another key keeps its index 3.
alive-IsCached : IsCached node key [] 3 alive (server (some 3) alive)
unfolding lookup ◌=?◌
alive-IsCached = record { last_ts = some 1000000; entry = refl }

store-IsCached_example :
    IsCached node 77 [] 3 alive (store up node (77 ∷ []) (server (some 3) alive)).1
store-IsCached_example =
    store-IsCached up up-IsUp node 77 [] key [] 3 alive (server (some 3) alive) alive-IsCached
