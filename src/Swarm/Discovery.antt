-- ===== src/Swarm/Discovery.antt =====
-- lib/node_discovery.py: the access points and coordinators that a node knows of.
pub mod Laws
use smartedge.Base.{ℕ, Bool, true, false, Option, none, some, List, [], ◌∷◌, ◌||◌, not}
use smartedge.Base.{Text, codes, ◌=?◌, leb, is_some, if◌then◌else◌}
use smartedge.Base.Decimal.{ℤ, pos, negsuc, int}
use smartedge.Base.Dict.{Dict, lookup, insert}
use smartedge.Base.Exec.{
  Exec, Result, ok, raised, value_error, return, lift, try_except, ◌>>=◌, ◌>>◌,
}

-- A value of `known_aps`; the switch connection is named by its address.
pub record Ap : Type 0 where
  pub name : Text
  pub last_update : Text
  pub address : Text
  pub sebackbone_ip : Text
  pub cli_instance : Text

pub record Coordinator : Type 0 where
  pub name : Text
  pub last_update : Text
  pub address : Text
  pub sebackbone_ip : Text

pub record Known : Type 0 where
  pub known_aps : Dict Ap
  pub known_coordinators : Dict Coordinator

-- The keys of an announcement, `last_update` by its default '0' where it is missing.
pub record Announcement : Type 0 where
  pub group_id : Text
  pub kind : Text
  pub last_update : Text
  pub uuid : Text
  pub name : Text
  pub address : Text
  pub sebackbone_ip : Text

above : ℤ → ℤ → Bool
above (pos a) (pos b) = not (leb a b)
above (pos a) (negsuc b) = true
above (negsuc a) (pos b) = false
above (negsuc a) (negsuc b) = not (leb b a)

compare_times : Option ℤ → Option ℤ → Result Bool
unfolding above
compare_times (some a) (some b) = ok (above a b)
compare_times _ _ = raised value_error

-- `uuid not in known or int(timestamp) > int(known[uuid]['last_update'])`
unfoldable pub is_news : Text → Option Text → Result Bool
unfolding compare_times
is_news timestamp none = ok true
is_news timestamp (some old) = compare_times (int timestamp) (int old)

abbrev pub ap_time : Option Ap → Option Text
ap_time none = none
ap_time (some a) = some a.last_update

abbrev pub coordinator_time : Option Coordinator → Option Text
coordinator_time none = none
coordinator_time (some c) = some c.last_update

-- An access point is recorded once its switch could be connected to. `connect` is the address of the
-- connection, or `none`.
learn_ap : (Text → Option Text) → Announcement → Known → Known
learn_ap connect m k = elim (connect m.address) [
  | none ↦ k
  | some instance_ ↦ record k {
    known_aps =
        insert m.uuid
          (record {
            name = m.name;
            last_update = m.last_update;
            address = m.address;
            sebackbone_ip = m.sebackbone_ip;
            cli_instance = instance_;
          })
          k.known_aps;
  }
]

learn_coordinator : Announcement → Known → Known
learn_coordinator m k = record k {
  known_coordinators =
      insert m.uuid
        (record {
          name = m.name;
          last_update = m.last_update;
          address = m.address;
          sebackbone_ip = m.sebackbone_ip;
        })
        k.known_coordinators;
}

abbrev pub when_news : Result Bool → (Known → Known) → Known → Result (Unit {0}) × Known
when_news (raised e) f k = (raised e, k)
when_news (ok true) f k = (ok tt, f k)
when_news (ok false) f k = (ok tt, k)

-- The body of the loop of `listen` for one message of the group.
unfoldable pub learn : (Text → Option Text) → Announcement → Exec Known (Unit {0})
unfolding learn_ap learn_coordinator
learn connect m k =
    if m.kind =? codes "AP"
    then when_news (is_news m.last_update (ap_time (lookup m.uuid k.known_aps)))
        (learn_ap connect m) k
    else if m.kind =? codes "CO"
    then when_news (is_news m.last_update (coordinator_time (lookup m.uuid k.known_coordinators)))
        (learn_coordinator m) k
    else (ok tt, k)

-- One round of `listen`, where a message was read before. A message that cannot be read is `none`;
-- every exception is printed, with the last message that was read.
unfoldable pub listen : Text → (Text → Option Text) → Option Announcement → Known → Known
unfolding learn
listen group_id connect none k = k
listen group_id connect (some m) k = if m.group_id =? group_id then (learn connect m k).1 else k

unfoldable pub listen_rounds :
    Text → (Text → Option Text) → List (Option Announcement) → Known → Known
unfolding listen
listen_rounds group_id connect [] k = k
listen_rounds group_id connect (m ∷ ms) k =
    listen_rounds group_id connect ms (listen group_id connect m k)

-- The thread of `listen`. Where the first message cannot be read, there is no message to print: the
-- handler of the exception raises, and the thread ends.
unfoldable pub listen_thread :
    Text → (Text → Option Text) → List (Option Announcement) → Known → Known
unfolding listen_rounds
listen_thread group_id connect [] k = k
listen_thread group_id connect (none ∷ ms) k = k
listen_thread group_id connect (some m ∷ ms) k = listen_rounds group_id connect (some m ∷ ms) k

-- The message that `announce` broadcasts.
unfoldable pub announce : Text → Text → Text → Text → Text → Text → Text → Announcement
announce group_id node_type start_timestamp uuid node_sebackbone_ip node_name ip = record {
  group_id = group_id;
  kind = node_type;
  last_update = start_timestamp;
  uuid = uuid;
  name = node_name;
  address = ip;
  sebackbone_ip = node_sebackbone_ip;
}
