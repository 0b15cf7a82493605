-- ===== src/Coordinator/Requests/Leave.antt =====
-- The whole effect of a request to leave, from the statements to the reply.
use smartedge.Base.{ℕ, ◌≡◌, refl, sym, ap, ap₂, ◌∙◌, some, arith}
use smartedge.Base.{List, [], ◌∷◌, ◌++◌, Text, codes, if◌then◌else◌}
use mathlib.Core.List.{append-nil, append_assoc}
use smartedge.Base.Dict.{Dict}
use smartedge.Base.Exec.{ok, return, require, ◌>>=◌}
use smartedge.Swarm.Io.{
  ArtRow, go_away, select_arts, select_ids, query, send_config, reply_nodes, Event, Env,
}
use smartedge.Swarm.Database.{execute_read, batch_get_available_host_id, batch_host_ids}
use smartedge.Swarm.Settings.{this_swarm_dhcp_start, this_swarm_dhcp_end}
use smartedge.Swarm.Discovery.{Ap}
use smartedge.Coordinator.Onboard.{Co, Task, outside, offboard_node, deliver_config, append_node}
use smartedge.Coordinator.Requests.{
  Request, request, create_tasks, gather, reply, serve, handle_ac_communication,
}
use smartedge.Coordinator.Requests.Laws.{logged, settled, handle-leave, leave_nodes-serve}

-- The messages to the nodes, in the order of the tasks.
pub goodbyes : List Task → List Event
goodbyes [] = []
goodbyes (t ∷ ts) = send_config t.ip go_away ∷ goodbyes ts

-- The nodes that the message can be sent to, each tried after the ones before it.
pub reached : Env → List Event → List Task → List Text
reached env before [] = []
reached env before (t ∷ ts) =
    let rest = reached env (before ++ send_config t.ip go_away ∷ []) ts in
    if env.connect before t.ip go_away then t.uuid ∷ rest else rest

abbrev after : Co → List Event → List Text → Co
after s es nodes = record {
  io = record s.io { events = s.io.events ++ es };
  available_nodes = s.available_nodes ++ nodes;
}

after-empty : (s : Co) → after s [] [] ≡ s
after-empty s =
    ap₂ (λ es nodes. record { io = record s.io { events = es }; available_nodes = nodes })
      (append-nil s.io.events) (append-nil s.available_nodes)

after-after :
    (s : Co) (es es' : List Event) (nodes nodes' : List Text)
    → after (after s es nodes) es' nodes' ≡ after s (es ++ es') (nodes ++ nodes')
after-after s es es' nodes nodes' =
    ap₂ (λ fs ms. record { io = record s.io { events = fs }; available_nodes = ms })
      (append_assoc s.io.events es es') (append_assoc s.available_nodes nodes nodes')

abbrev listed : Env → List Event → Task → List Text
listed env before t = if env.connect before t.ip go_away then t.uuid ∷ [] else []

offboard-listed :
    (env : Env) (t : Task) (s : Co)
    → offboard_node env t s
      ≡ (ok tt, after s (send_config t.ip go_away ∷ []) (listed env s.io.events t))
unfolding offboard_node deliver_config append_node ◌>>=◌
offboard-listed env t s = ground (arith, append-nil s.available_nodes)

gather-step :
    (env : Env) (t : Task) (ts : List Task) (s u : Co)
    → offboard_node env t s ≡ (ok tt, u)
    → gather (offboard_node env) (t ∷ ts) s ≡ gather (offboard_node env) ts u
unfolding gather
gather-step env t ts s u h = rw (h) refl

reached_step :
    (env : Env) (before : List Event) (t : Task) (ts : List Task)
    → listed env before t ++ reached env (before ++ send_config t.ip go_away ∷ []) ts
      ≡ reached env before (t ∷ ts)
unfolding reached
reached_step env before t ts = ground arith

gather-offboard :
    (env : Env) (ts : List Task) (s : Co)
    → gather (offboard_node env) ts s ≡ (ok tt, after s (goodbyes ts) (reached env s.io.events ts))
unfolding goodbyes gather reached
gather-offboard env [] s = ap (λ t. (ok tt, t)) (sym (after-empty s))
gather-offboard env (t ∷ ts) s =
    let u = after s (send_config t.ip go_away ∷ []) (listed env s.io.events t) in
    gather-step env t ts s u (offboard-listed env t s)
    ∙ gather-offboard env ts u
    ∙ ap (λ x. (ok tt, x))
        (after-after s (send_config t.ip go_away ∷ []) (goodbyes ts) (listed env s.io.events t)
            (reached env u.io.events ts)
          ∙ ap (after s (goodbyes (t ∷ ts))) (reached_step env s.io.events t ts))

serve-offboard :
    (env : Env) (row : ArtRow) (rows : List ArtRow) (used : List ℕ) (ts : List Task) (s : Co)
    → env.ids s.io.events ≡ some used
    → create_tasks (row ∷ rows) (batch_host_ids this_swarm_dhcp_start this_swarm_dhcp_end used)
      ≡ some ts
    → let t = logged s (query select_ids) in
      let nodes = t.available_nodes ++ reached env t.io.events ts in
      serve env (offboard_node env) (row ∷ rows) s
      ≡ (ok tt, logged (after t (goodbyes ts) (reached env t.io.events ts)) (reply_nodes nodes))
unfolding serve outside batch_get_available_host_id execute_read ◌>>=◌ require return reply
serve-offboard env row rows used ts s free made =
    rw (free, made, gather-offboard env ts (logged s (query select_ids))) refl

-- Where enough host identifiers are free, a request to leave tries to send every node found its
-- message, in the order of the rows, and then replies with the nodes listed before and exactly
-- those for which connecting and sending raised nothing; no answer of a node is waited for.
pub leave-reached :
    (env : Env) (aps : Dict Ap) (r : Request) (nodes : List Text) (row : ArtRow)
    (rows : List ArtRow) (used : List ℕ) (ts : List Task) (s : Co)
    → r.kind ≡ some (codes "nll")
    → r.node_ids ≡ some nodes
    → env.art_rows s.io.events nodes ≡ some (row ∷ rows)
    → env.ids (s.io.events ++ query (select_arts nodes) ∷ []) ≡ some used
    → create_tasks (row ∷ rows) (batch_host_ids this_swarm_dhcp_start this_swarm_dhcp_end used)
      ≡ some ts
    → let t = logged (logged s (query (select_arts nodes))) (query select_ids) in
      let sent = reached env t.io.events ts in
      handle_ac_communication env aps (request r) s
      ≡ (ok tt, logged (after t (goodbyes ts) sent) (reply_nodes (s.available_nodes ++ sent)))
leave-reached env aps r nodes row rows used ts s kind named found free made =
    handle-leave env aps r s kind
    ∙ ap settled (
        leave_nodes-serve env r nodes (row ∷ rows) s named found
        ∙ serve-offboard env row rows used ts (logged s (query (select_arts nodes))) free made)
