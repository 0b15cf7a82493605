-- ===== src/Coordinator/Requests/Addresses.antt =====
-- The configurations that a request to join sends.
use smartedge.Base.{ℕ, ◌≡◌, refl, sym, ap, ◌∙◌, some, List, [], ◌∷◌, ◌++◌, Text, codes}
use mathlib.Core.List.{append_assoc, append-nil}
use mathlib.Core.Path.{subst}
use smartedge.Base.Dict.{Dict}
use smartedge.Base.Exec.{Result, ok, raised, proceed}
use smartedge.Address.Mac.{mac_value}
use smartedge.Swarm.Io.{ArtRow, Heartbeats, select_arts, select_ids, query, reply_nodes, Env}
use smartedge.Swarm.Io.Quiet.{configs, quiet_event}
use smartedge.Swarm.Database.{batch_host_ids}
use smartedge.Swarm.Database.HostIds.{elem-batch_host_ids}
use smartedge.Swarm.Settings.{this_swarm_dhcp_start, this_swarm_dhcp_end}
use smartedge.Swarm.Discovery.{Ap}
use smartedge.Coordinator.Onboard.{Co, Task, onboard_node}
use smartedge.Coordinator.Onboard.Configs.{offer, offers, onboard-configs}
use smartedge.Coordinator.Requests.{
  Request, request, available, create_tasks, gather, later, reply, serve, dispatch, heartbeats_of,
  handle_ac_communication,
}
use smartedge.Coordinator.Requests.Laws.{logged, settled, handle-settled}
use smartedge.Coordinator.Requests.Join.{serve-gather, dispatch-join}
use smartedge.Coordinator.Requests.Distinct.{
  told, Distinct, Ordered, create_tasks-Ordered, offers-Distinct, mac_of_config, ip_of_config,
  ip_value,
}

later-state : (r : Result (Unit {0})) (x : Result (Unit {0}) × Co) → (later r x).1 ≡ x.1
later-state (ok u) x = refl
later-state (raised e) x = refl

gather-configs :
    (env : Env) (aps : Dict Ap) (hb : Heartbeats) (ts : List Task) (s : Co)
    → configs (gather (onboard_node env aps hb) ts s).1.io.events
      ≡ configs s.io.events ++ offers aps hb ts
unfolding gather offers
gather-configs env aps hb [] s = sym (append-nil (configs s.io.events))
gather-configs env aps hb (t ∷ ts) s =
    let x = onboard_node env aps hb t s in
    ap (λ c. configs c.io.events) (later-state x.0 (gather (onboard_node env aps hb) ts x.1))
    ∙ gather-configs env aps hb ts x.1
    ∙ ap (λ cs. cs ++ offers aps hb ts) (onboard-configs env aps hb t s)
    ∙ append_assoc (configs s.io.events) (offer aps hb t) (offers aps hb ts)

settled-reply :
    (x : Result (Unit {0}) × Co)
    → configs (settled (proceed (λ _. reply) x.0 x.1)).1.io.events ≡ configs x.1.io.events
unfolding reply
settled-reply (ok u, t) =
    quiet_event t.io.events (reply_nodes t.available_nodes) (unfold configs in refl)
settled-reply (raised e, t) = refl

-- The two statements before the tasks are made.
asked :
    (s : Co) (nodes : List Text)
    → configs (logged (logged s (query (select_arts nodes))) (query select_ids)).io.events
      ≡ configs s.io.events
unfolding configs
asked s nodes =
    quiet_event (s.io.events ++ query (select_arts nodes) ∷ []) (query select_ids) refl
    ∙ quiet_event s.io.events (query (select_arts nodes)) refl

-- A request to join for which rows are found and host identifiers suffice tries to send, whatever
-- the nodes, the switches and the statements that write answer, exactly one configuration for each
-- node of a known access point, to the address in the node's row, in the order of the rows, with
-- the addresses of its host identifier where there are such addresses; no two of them have the
-- same MAC address, and no two the same IP address.
pub join-Distinct :
    (env : Env) (aps : Dict Ap) (r : Request) (nodes : List Text) (rows : List ArtRow)
    (row : ArtRow) (others : List ArtRow) (used : List ℕ) (ts : List Task) (s : Co)
    → r.kind ≡ some (codes "njl")
    → r.node_ids ≡ some nodes
    → env.art_rows s.io.events nodes ≡ some rows
    → available rows ≡ row ∷ others
    → env.ids (s.io.events ++ query (select_arts nodes) ∷ []) ≡ some used
    → create_tasks (row ∷ others) (batch_host_ids this_swarm_dhcp_start this_swarm_dhcp_end used)
      ≡ some ts
    → (configs (handle_ac_communication env aps (request r) s).1.io.events
        ≡ configs s.io.events ++ offers aps (heartbeats_of r) ts)
      × Distinct (told (λ c. c.veth1_vmac) (offers aps (heartbeats_of r) ts))
      × Distinct (told (λ c. c.veth1_vip) (offers aps (heartbeats_of r) ts))
join-Distinct env aps r nodes rows row others used ts s kind named found free_rows free made =
    let hb = heartbeats_of r in
    let run = onboard_node env aps hb in
    let u = logged s (query (select_arts nodes)) in
    let v = logged u (query select_ids) in
    let x = gather run ts v in
    let batch = batch_host_ids this_swarm_dhcp_start this_swarm_dhcp_end used in
    let ordered : Ordered this_swarm_dhcp_start (some ts) =
      subst (Ordered this_swarm_dhcp_start) made (
        create_tasks-Ordered (row ∷ others) batch this_swarm_dhcp_start
          (elem-batch_host_ids this_swarm_dhcp_start this_swarm_dhcp_end used).0) in
    (
      ap (λ y. configs y.1.io.events) (handle-settled env aps r s)
          ∙ ap (λ k. configs (settled (dispatch env aps r k s)).1.io.events) kind
          ∙ ap (λ y. configs (settled y).1.io.events)
              (dispatch-join env aps r nodes rows s named found
                ∙ ap (λ rs. serve env run rs u) free_rows
                ∙ serve-gather env run row others used ts u free made)
          ∙ settled-reply x
          ∙ gather-configs env aps hb ts v
          ∙ ap (λ cs. cs ++ offers aps hb ts) (asked s nodes),
      offers-Distinct (λ c. c.veth1_vmac) (mac_value 0) mac_of_config aps hb ts
          this_swarm_dhcp_start ordered,
      offers-Distinct (λ c. c.veth1_vip) ip_value ip_of_config aps hb ts this_swarm_dhcp_start
          ordered,
    )
