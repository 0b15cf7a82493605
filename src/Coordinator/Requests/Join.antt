-- ===== src/Coordinator/Requests/Join.antt =====
-- A request to join with a node whose access point is not known.
use smartedge.Base.{ℕ, ◌≡◌, refl, ap, ◌∙◌, ◌⊎◌, inl, inr, Bool, true, false, none, some}
use smartedge.Base.{List, [], ◌∷◌, ◌++◌, ◌=?◌, Text, codes}
use mathlib.Core.Bool.{false≢true}
use smartedge.Base.Dict.{Dict, lookup}
use smartedge.Base.Exec.{Exec, Result, ok, raised, require, return, ◌>>=◌, proceed}
use smartedge.Swarm.Io.{ArtRow, Heartbeats, select_arts, select_ids, query, Env}
use smartedge.Swarm.Database.{execute_read, batch_get_available_host_id, batch_host_ids}
use smartedge.Swarm.Settings.{this_swarm_dhcp_start, this_swarm_dhcp_end}
use smartedge.Swarm.Discovery.{Ap}
use smartedge.Coordinator.Onboard.{Co, Task, outside, onboard_node}
use smartedge.Coordinator.Onboard.Laws.{onboard-unknown}
use smartedge.Coordinator.Requests.{
  Request, request, available, create_tasks, gather, later, reply, serve, dispatch, heartbeats_of,
  join_nodes, handle_ac_communication,
}
use smartedge.Coordinator.Requests.Laws.{logged, settled, handle-settled, requested_rows-found}

-- Some task names an access point that is not known.
abbrev pub HasUnknown : Dict Ap → List Task → Type 0
HasUnknown aps [] = ⊥
HasUnknown aps (t ∷ ts) = (lookup t.ap_id aps ≡ none) ⊎ HasUnknown aps ts

abbrev raises : Result (Unit {0}) → Bool
raises (ok u) = false
raises (raised e) = true

later-raises :
    (r : Result (Unit {0})) (x : Result (Unit {0}) × Co)
    → (raises r ≡ true) ⊎ (raises x.0 ≡ true)
    → raises (later r x).0 ≡ true
later-raises (ok u) x (inl h) = absurd (false≢true h)
later-raises (ok u) x (inr h) = h
later-raises (raised e) x h = refl

gather-unknown :
    (env : Env) (aps : Dict Ap) (hb : Heartbeats) (ts : List Task) (s : Co)
    → HasUnknown aps ts
    → raises (gather (onboard_node env aps hb) ts s).0 ≡ true
unfolding gather
gather-unknown env aps hb [] s u = absurd u
gather-unknown env aps hb (t ∷ ts) s (inl here) =
    later-raises (onboard_node env aps hb t s).0
      (gather (onboard_node env aps hb) ts (onboard_node env aps hb t s).1)
      (inl (ap (λ x. raises x.0) (onboard-unknown env aps hb t s here)))
gather-unknown env aps hb (t ∷ ts) s (inr there) =
    later-raises (onboard_node env aps hb t s).0
      (gather (onboard_node env aps hb) ts (onboard_node env aps hb t s).1)
      (inr (gather-unknown env aps hb ts (onboard_node env aps hb t s).1 there))

-- The tasks of a request, and nothing after them where one of them raises.
unanswered :
    (x : Result (Unit {0}) × Co) (m : Exec Co (Unit {0}))
    → raises x.0 ≡ true
    → (settled (proceed (λ _. m) x.0 x.1)).1 ≡ x.1
unanswered (ok u, t) m h = absurd (false≢true h)
unanswered (raised e, t) m h = refl

pub serve-gather :
    (env : Env) (run : Task → Exec Co (Unit {0})) (row : ArtRow) (rows : List ArtRow)
    (used : List ℕ) (ts : List Task) (s : Co)
    → env.ids s.io.events ≡ some used
    → create_tasks (row ∷ rows) (batch_host_ids this_swarm_dhcp_start this_swarm_dhcp_end used)
      ≡ some ts
    → let x = gather run ts (logged s (query select_ids)) in
      serve env run (row ∷ rows) s ≡ proceed (λ _. reply) x.0 x.1
unfolding serve outside batch_get_available_host_id execute_read ◌>>=◌ require return
serve-gather env run row rows used ts s free made = rw (free, made) refl

pub dispatch-join :
    (env : Env) (aps : Dict Ap) (r : Request) (nodes : List Text) (rows : List ArtRow) (s : Co)
    → r.node_ids ≡ some nodes
    → env.art_rows s.io.events nodes ≡ some rows
    → dispatch env aps r (some (codes "njl")) s
      ≡ serve env
          (onboard_node env aps (heartbeats_of r))
          (available rows)
          (logged s (query (select_arts nodes)))
unfolding dispatch codes ◌=?◌ join_nodes ◌>>=◌
dispatch-join env aps r nodes rows s named found =
    rw (requested_rows-found env r nodes rows s named found) refl

-- Where a request to join names a node whose access point is not known, no reply is sent at all:
-- the state is left as the tasks of all the nodes leave it.
pub join-unknown :
    (env : Env) (aps : Dict Ap) (r : Request) (nodes : List Text) (rows : List ArtRow)
    (row : ArtRow) (others : List ArtRow) (used : List ℕ) (ts : List Task) (s : Co)
    → r.kind ≡ some (codes "njl")
    → r.node_ids ≡ some nodes
    → env.art_rows s.io.events nodes ≡ some rows
    → available rows ≡ row ∷ others
    → env.ids (s.io.events ++ query (select_arts nodes) ∷ []) ≡ some used
    → create_tasks (row ∷ others) (batch_host_ids this_swarm_dhcp_start this_swarm_dhcp_end used)
      ≡ some ts
    → HasUnknown aps ts
    → (handle_ac_communication env aps (request r) s).1
      ≡ (gather
          (onboard_node env aps (heartbeats_of r))
          ts
          (logged (logged s (query (select_arts nodes))) (query select_ids))).1
join-unknown env aps r nodes rows row others used ts s kind named found free_rows free made
      unknown =
    let run = onboard_node env aps (heartbeats_of r) in
    let u = logged s (query (select_arts nodes)) in
    let x = gather run ts (logged u (query select_ids)) in
    ap (λ y. y.1) (handle-settled env aps r s)
    ∙ ap (λ k. (settled (dispatch env aps r k s)).1) kind
    ∙ ap (λ y. (settled y).1)
        (dispatch-join env aps r nodes rows s named found
          ∙ ap (λ rs. serve env run rs u) free_rows
          ∙ serve-gather env run row others used ts u free made)
    ∙ unanswered x reply
        (gather-unknown env aps (heartbeats_of r) ts (logged u (query select_ids)) unknown)
