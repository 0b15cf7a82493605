-- ===== src/Coordinator/Tests.antt =====
-- Requests to the coordinator at concrete data.
use smartedge.Base.{
  ℕ, ◌<◌, ◌≡◌, refl, Bool, true, false, none, some, List, [], ◌∷◌, ◌++◌, inl, arith,
}
use smartedge.Base.{Text, codes, ◌=?◌, elem, length}
use smartedge.Base.Dict.{Dict, lookup}
use smartedge.Base.Exec.{ok}
use smartedge.Address.{int_to_mac, ip_text, ip_add, assign_virtual_mac_and_ip_by_host_id}
use smartedge.Swarm.Io.{ArtRow, Heartbeats, Env, select_arts, select_ids, query, reply_nodes}
use smartedge.Swarm.Database.{range_from, without, batch_host_ids}
use smartedge.Swarm.Settings.{this_swarm_subnet, this_swarm_dhcp_start, this_swarm_dhcp_end}
use smartedge.Swarm.Discovery.{Ap}
use smartedge.Coordinator.Onboard.{Co, Task, onboard_node}
use smartedge.Coordinator.Requests.{
  Request, request, task_of, create_tasks, gather, heartbeats_of, handle_ac_communication,
  available,
}
use smartedge.Coordinator.Requests.Laws.{logged, leave-exhausted}
use smartedge.Coordinator.Requests.Leave.{goodbyes, reached, leave-reached}
use smartedge.Swarm.Io.Quiet.{configs}
use smartedge.Coordinator.Onboard.Configs.{offers}
use smartedge.Coordinator.Requests.Distinct.{told, Distinct}
use smartedge.Coordinator.Requests.Addresses.{join-Distinct}
use smartedge.Coordinator.Requests.Join.{HasUnknown, join-unknown}

abbrev row : ArtRow
row = record {
  uuid = 115 ∷ [];
  current_ap = 97 ∷ [];
  current_swarm = 0;
  ap_port = 3;
  virt_ip = 105 ∷ [];
}

-- The identifiers in use, and whether nodes can be reached.
abbrev answers : List ℕ → Bool → Env
answers used reachable = record {
  write = λ _ _. true;
  art_row = λ _ _. some none;
  art_rows = λ _ _. some (row ∷ []);
  id_of = λ _ _. some none;
  ids = λ _. some used;
  onecmd = λ _ _ _. record { output = []; raises = false };
  run = λ _ _. record { stdout = []; stderr = [] };
  connect = λ _ _ _. reachable;
  rounds = λ _. 1;
}

abbrev start : Co
start = record { io = record { events = []; captured = []; position = 0 }; available_nodes = [] }

abbrev asks : Text → Request
asks kind = record {
  kind = some kind;
  node_ids = some ((115 ∷ []) ∷ []);
  heartbeat = none;
  hb_length = none;
  hb_window = none;
  hb_interval = none;
}

abbrev full : List ℕ
full = range_from 1 253

abbrev names : List Text
names = (115 ∷ []) ∷ []

-- All identifiers are in use.
no_ids : length (batch_host_ids this_swarm_dhcp_start this_swarm_dhcp_end full) ≡ 0
unfolding batch_host_ids range_from without elem
no_ids = refl

few_ids : length (batch_host_ids this_swarm_dhcp_start this_swarm_dhcp_end full) < length (row ∷ [])
few_ids = omega (arith, no_ids)

leave-exhausted_example :
    handle_ac_communication (answers full true) [] (request (asks (codes "nll"))) start
    ≡ (ok tt, logged (logged start (query (select_arts names))) (query select_ids))
leave-exhausted_example =
    leave-exhausted (answers full true) [] (asks (codes "nll")) names row [] full start refl refl
      refl refl few_ids

abbrev tasks : List Task
tasks = task_of row 1 ∷ []

first_ids :
    create_tasks (row ∷ []) (batch_host_ids this_swarm_dhcp_start this_swarm_dhcp_end [])
    ≡ some tasks
unfolding create_tasks batch_host_ids range_from
first_ids = refl

leave-reached_example :
    let t = logged (logged start (query (select_arts names))) (query select_ids) in
    let nodes = reached (answers [] true) t.io.events tasks in
    handle_ac_communication (answers [] true) [] (request (asks (codes "nll"))) start ≡ (
      ok tt,
      logged
          (record {
            io = record t.io { events = t.io.events ++ goodbyes tasks };
            available_nodes = [] ++ nodes;
          })
          (reply_nodes ([] ++ nodes)),
    )
leave-reached_example =
    leave-reached (answers [] true) [] (asks (codes "nll")) names row [] [] tasks start refl refl
      refl refl first_ids

only_row : available (row ∷ []) ≡ row ∷ []
unfolding available
only_row = refl

no_ap : HasUnknown [] tasks
unfolding lookup
no_ap = inl refl

join-unknown_example :
    (handle_ac_communication (answers [] true) [] (request (asks (codes "njl"))) start).1
    ≡ (gather
        (onboard_node (answers [] true) [] (heartbeats_of (asks (codes "njl"))))
        tasks
        (logged (logged start (query (select_arts names))) (query select_ids))).1
join-unknown_example =
    join-unknown (answers [] true) [] (asks (codes "njl")) names (row ∷ []) row [] [] tasks start
      refl refl refl only_row refl first_ids no_ap

abbrev aps : Dict Ap
aps =
    (
      97 ∷ [],
      record {
        name = [];
        last_update = [];
        address = [];
        sebackbone_ip = [];
        cli_instance = 99 ∷ [];
      },
    )
    ∷ []

abbrev no_heartbeats : Heartbeats
no_heartbeats = record { enabled = false; hb_length = none; hb_window = none; hb_interval = none }

abbrev vmac : Text
vmac = int_to_mac 0x0a010001

abbrev vip : Text
vip = ip_text 0x0a010001

first_address : assign_virtual_mac_and_ip_by_host_id this_swarm_subnet 1 ≡ ok (vmac, vip)
unfolding assign_virtual_mac_and_ip_by_host_id ip_add
first_address = refl

abbrev first_ap : Ap
first_ap = record {
  name = [];
  last_update = [];
  address = [];
  sebackbone_ip = [];
  cli_instance = 99 ∷ [];
}

known_ap : lookup (97 ∷ []) aps ≡ some first_ap
unfolding lookup ◌=?◌
known_ap = refl

-- Two nodes ask to join.
abbrev two_rows : Env
two_rows = record (answers [] true) { art_rows = λ _ _. some (row ∷ row ∷ []) }

both_free : available (row ∷ row ∷ []) ≡ row ∷ row ∷ []
unfolding available
both_free = refl

two_ids :
    create_tasks (row ∷ row ∷ []) (batch_host_ids this_swarm_dhcp_start this_swarm_dhcp_end [])
    ≡ some (task_of row 1 ∷ task_of row 2 ∷ [])
unfolding create_tasks batch_host_ids range_from
two_ids = refl

join-Distinct_example :
    let nodes = task_of row 1 ∷ task_of row 2 ∷ [] in
    let hb = heartbeats_of (asks (codes "njl")) in
    (configs (handle_ac_communication two_rows aps (request (asks (codes "njl"))) start).1.io.events
      ≡ configs [] ++ offers aps hb nodes)
    × Distinct (told (λ c. c.veth1_vmac) (offers aps hb nodes))
    × Distinct (told (λ c. c.veth1_vip) (offers aps hb nodes))
join-Distinct_example =
    join-Distinct two_rows aps (asks (codes "njl")) names (row ∷ row ∷ []) row (row ∷ []) []
      (task_of row 1 ∷ task_of row 2 ∷ []) start refl refl refl both_free refl two_ids
