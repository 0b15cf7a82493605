-- ===== src/Heartbeat/Server/Keeps/Registration.antt =====
-- How a registration changes the cache: only the entry of the node that it names.
use smartedge.Base.{◌≡◌, true, false, not, Bool, Option, none, some, [], ◌∷◌, arith}
use smartedge.Base.{ℕ, Text, ◌=?◌}
use smartedge.Base.Bytes.{Bytes}
use smartedge.Base.Utf8.{decode}
use smartedge.Base.Dict.{Dict}
use smartedge.Base.Exec.{Exec, value_error, require, ◌>>=◌}
use smartedge.Heartbeat.Server.{
  Status, registered, alive, dead, Entry, Env, Server, Reply, ack, nack, sendall,
}
use smartedge.Heartbeat.Server.Register.{
  Received, received, timed_out, failed, parse_registration, revive, store, register, refuse,
  handle_tcp_client,
}
use smartedge.Heartbeat.Server.Keeps.{
  Changes, Closed, bind-Changes, try-Changes, return-Changes, by_test, save_pubkey-Changes,
  save_hb_state-Changes, get_hb_state-Changes,
}
use smartedge.Heartbeat.Server.Keeps.Handlers.{other_closed, nodup_closed}
use smartedge.Heartbeat.Server.Guard.{Holds, keeps-Holds}

abbrev parsed : Option Text → Option (Text × Bytes)
parsed none = none
parsed (some msg) = parse_registration msg

-- The node and the key that a registration gives, if it can be read.
unfoldable pub registration_of : Received → Option (Text × Bytes)
registration_of (received bytes) = parsed (decode bytes)
registration_of timed_out = none
registration_of failed = none

abbrev names_other : Text → Option (Text × Bytes) → Bool
names_other node none = true
names_other node (some (client_id, key)) = not (node =? client_id)

-- The registration is none of the node.
unfoldable pub spares : Text → Received → Bool
unfolding registration_of
spares node got = names_other node (registration_of got)

abbrev Names : (Text → Type 0) → Option (Text × Bytes) → Type 0
Names P none = Unit
Names P (some (client_id, key)) = P client_id

module _ {P : Text → Type 0} {R : Dict Entry → Dict Entry → Type 0} (closed : Closed P R)
    (env : Env) where
  sendall-Changes : (r : Reply) → Changes R (sendall env r)
  unfolding sendall
  sendall-Changes r = record {
    runs =
        λ s. by_test closed (env.send s.events r) _ _ (closed.stays s.state) (closed.stays s.state);
  }

  revive-Changes : (node : Text) (st : Status) → P node → Changes R (revive env node st)
  unfolding revive
  revive-Changes node dead p = save_hb_state-Changes closed env node 0 registered p
  revive-Changes node registered p = return-Changes closed tt
  revive-Changes node alive p = return-Changes closed tt

  store-Changes : (node : Text) (key : Bytes) → P node → Changes R (store env node key)
  unfolding store
  store-Changes node key p = bind-Changes closed (save_pubkey-Changes closed env node key p) (λ _.
      bind-Changes closed (get_hb_state-Changes closed env node p)
        (λ h. bind-Changes closed (revive-Changes node h.status p) (λ _. sendall-Changes ack)))

  refuse-Changes : Changes R (refuse env)
  unfolding refuse
  refuse-Changes = try-Changes closed (sendall-Changes nack) (λ _. return-Changes closed tt)

  register-Changes : (msg : Text) → Names P (parse_registration msg) → Changes R (register env msg)
  unfolding register
  register-Changes msg p = record { runs = λ s. go s (parse_registration msg) p }
    where
      go :
          (s : Server) (o : Option (Text × Bytes))
          → Names P o
          → R s.state
              ((elim o as (λ _. Exec Server (Unit {0})) [
                | none ↦ sendall env nack
                | some (client_id, key) ↦ store env client_id key
              ])
                s).1.state
      go s none p = (sendall-Changes nack).runs s
      go s (some (client_id, key)) p = (store-Changes client_id key p).runs s

  decoded-Changes :
      (o : Option Text) → Names P (parsed o) → Changes R (require value_error o >>= register env)
  unfolding require ◌>>=◌
  decoded-Changes none p = record { runs = λ s. closed.stays s.state }
  decoded-Changes (some msg) p = record { runs = (register-Changes msg p).runs }

  pub handle_tcp-Changes :
      (got : Received) → Names P (registration_of got) → Changes R (handle_tcp_client env got)
  unfolding handle_tcp_client registration_of
  handle_tcp-Changes timed_out p = return-Changes closed tt
  handle_tcp-Changes failed p = refuse-Changes
  handle_tcp-Changes (received []) p = return-Changes closed tt
  handle_tcp-Changes (received (b ∷ bs)) p =
      try-Changes closed (decoded-Changes (decode (b ∷ bs)) p) (λ _. refuse-Changes)

anyone : (o : Option (Text × Bytes)) → Names (λ _. Unit) o
anyone none = tt
anyone (some (client_id, key)) = tt

other :
    (node : Text) (o : Option (Text × Bytes))
    → names_other node o ≡ true
    → Names (λ k. (node =? k) ≡ false) o
other node none h = tt
other node (some (client_id, key)) h = ground (arith, h)

-- A registration that is none of the node keeps its key and its index.
pub registration-Holds :
    (env : Env) (node : Text) (b : ℕ) (key : Bytes) (last : ℕ) (got : Received) (s : Server)
    → spares node got ≡ true
    → Holds node b key last s
    → Holds node b key last (handle_tcp_client env got s).1
unfolding spares
registration-Holds env node b key last got s h c =
    keeps-Holds node b key last (handle_tcp_client env got) s
      (handle_tcp-Changes nodup_closed env got (anyone (registration_of got)))
      (handle_tcp-Changes (other_closed node) env got (other node (registration_of got) h)) c
