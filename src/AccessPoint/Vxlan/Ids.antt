-- ===== src/AccessPoint/Vxlan/Ids.antt =====
-- The identifier of the tunnel of a new station: `get_next_available_vxlan_id` in the handling of a
-- new station.
use smartedge.Base.{ℕ, ◌≡◌, refl, ap, true, false, Option, some, List, [], ◌∷◌, ◌++◌, ◌↔◌}
use smartedge.Base.{Text, is_empty}
use smartedge.Base.Bytes.{words}
use smartedge.Base.Exec.{Result, ok, raised, value_error, proceed, require, lift, return, ◌>>=◌}
use smartedge.Swarm.Io.{Env, Event, run_shell}
use smartedge.Swarm.Database.{lowest_free}
use smartedge.Swarm.Database.HostIds.{is_free}
use smartedge.Swarm.Database.Lowest.{IsLowest, lowest_free-IsLowest}
use smartedge.AccessPoint.Vxlan.{
  Ap, outside, shell, parse_ids, list_ids_command, remote_command, get_next_available_vxlan_id,
  fresh_vxlan, choose_vxlan, assign_vxlan,
}

-- What a station is given for a search.
abbrev given : Result ℕ → Result (Option ℕ)
given (ok n) = ok (some n)
given (raised e) = raised e

given-found : (r : Result ℕ) (t : Ap) → (proceed (λ n. return (some n)) r t).0 ≡ given r
unfolding return
given-found (ok n) t = refl
given-found (raised e) t = refl

fresh_vxlan-lowest :
    (env : Env) (s : Ap) (ids : List ℕ)
    → parse_ids (words (env.run s.io.events list_ids_command).stdout) ≡ some ids
    → (fresh_vxlan env s).0 ≡ given (lowest_free 1 499 ids)
unfolding fresh_vxlan get_next_available_vxlan_id shell outside run_shell require lift ◌>>=◌
fresh_vxlan-lowest env s ids h =
    rw h (given-found (lowest_free 1 499 ids) (shell env list_ids_command s).1)

given-IsLowest :
    (first hi : ℕ) (used : List ℕ) (r : Result ℕ)
    → IsLowest first hi used r
    → ((given r ≡ raised value_error) ↔ ((m : ℕ) → is_free first hi used m ≡ false))
      × ((n : ℕ)
          → (given r ≡ ok (some n))
            ↔ ((is_free first hi used n ≡ true) × ((m : ℕ) → is_free first n used m ≡ false)))
given-IsLowest first hi used r (none_left, least) = (
  (λ h. none_left.0 (back r h), λ all. ap given (none_left.1 all)),
  λ n. (λ h. (least n).0 (one r n h), λ h. ap given ((least n).1 h)),
)
  where
    back : (r : Result ℕ) → given r ≡ raised value_error → r ≡ raised value_error
    back (ok n) h = cc
    back (raised e) h = cc

    one : (r : Result ℕ) (n : ℕ) → given r ≡ ok (some n) → r ≡ ok n
    one (ok m) n h = cc
    one (raised e) n h = cc

-- A station that has no tunnel is given the least identifier from 1 to 499 that no tunnel of a
-- readable listing has, and a ValueError is raised exactly where all of these are in use.
pub assign_vxlan-IsLowest :
    (env : Env) (ip : Text) (s : Ap) (ids : List ℕ)
    → is_empty (env.run s.io.events (remote_command ip)).stderr ≡ true
    → is_empty (env.run s.io.events (remote_command ip)).stdout ≡ true
    → parse_ids (
        words
          (env.run (s.io.events ++ Event.shell (remote_command ip) ∷ []) list_ids_command).stdout)
      ≡ some ids
    → (((assign_vxlan env ip s).0 ≡ raised value_error) ↔ ((m : ℕ) → is_free 1 500 ids m ≡ false))
      × ((n : ℕ)
          → ((assign_vxlan env ip s).0 ≡ ok (some n))
            ↔ ((is_free 1 500 ids n ≡ true) × ((m : ℕ) → is_free 1 n ids m ≡ false)))
unfolding assign_vxlan choose_vxlan shell outside run_shell ◌>>=◌
assign_vxlan-IsLowest env ip s ids no_error no_tunnel listed =
    let t = (shell env (remote_command ip) s).1 in
    let e : (assign_vxlan env ip s).0 ≡ given (lowest_free 1 499 ids) =
      rw (no_error, no_tunnel) (fresh_vxlan-lowest env t ids listed) in
    rw e (given-IsLowest 1 500 ids (lowest_free 1 499 ids) (lowest_free-IsLowest 1 499 ids))
