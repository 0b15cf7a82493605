-- ===== src/AccessPoint/Disconnect/Moved.antt =====
-- A station that another access point has by the end of the wait.
use smartedge.Base.{◌≡◌, refl, sym, ap, ◌∙◌, true, false, Option, some}
use smartedge.Base.{Text, ◌=?◌, is_some}
use smartedge.Base.Dict.{Dict, lookup}
use smartedge.Base.Exec.{
  Exc, Exec, Result, ok, raised, type_error, require, return, try_except, ◌>>=◌,
}
use smartedge.Swarm.Io.{ArtRow, Env}
use smartedge.Swarm.Database.{get_node_info_from_art, execute_read}
use smartedge.Swarm.Discovery
use smartedge.AccessPoint.Keeps.{bind_ok}
use smartedge.AccessPoint.Vxlan.{Ap, Site, outside}
use smartedge.AccessPoint.Connect.{node_uuid, handle_new_connected_station}
use smartedge.AccessPoint.Connect.Laws.{handle_new-known}
use smartedge.AccessPoint.Connect.Table.{asked}
use smartedge.AccessPoint.Disconnect.Laws.{wait_rounds-Keeps}
use smartedge.AccessPoint.Disconnect.{
  wait_rounds, node_row, still_away, unless_back, wait_and_remove, first_look,
  handle_disconnected_station,
}

pub node_row-asked :
    (env : Env) (mac : Text) (row : Option ArtRow) (s : Ap)
    → env.art_row s.io.events (node_uuid mac) ≡ some row
    → node_row env mac s ≡ (ok row, asked mac s)
unfolding node_row outside get_node_info_from_art execute_read ◌>>=◌ require
node_row-asked env mac row s h = rw (h) refl

caught_raise :
    (m : Exec Ap (Unit {0})) (s t : Ap) (e : Exc)
    → m s ≡ (raised e, t)
    → try_except m (λ _. return tt) s ≡ (ok tt, t)
unfolding try_except return
caught_raise m s t e h =
    ap
      (λ x. elim x.0 as (λ _. Result (Unit {0}) × Ap) [
        | ok a ↦ (ok a, x.1)
        | raised e' ↦ (ok tt, x.1)
      ])
      h

module _ (env : Env) (site : Site) (aps : Dict Discovery.Ap) (mac : Text) (there : ArtRow) where
  pub still_away-moved :
      (s : Ap)
      → (there.current_ap =? site.self_uuid) ≡ false
      → still_away env site aps mac (some there) s ≡ (raised type_error, s)
  unfolding still_away
  still_away-moved s other = rw (other) refl

  wait_and_remove-moved :
      (s t : Ap)
      → wait_rounds env site mac (env.rounds s.io.events) s ≡ (ok false, t)
      → env.art_row t.io.events (node_uuid mac) ≡ some (some there)
      → (there.current_ap =? site.self_uuid) ≡ false
      → wait_and_remove env site aps mac s ≡ (raised type_error, asked mac t)
  unfolding wait_and_remove
  wait_and_remove-moved s t away second other =
      bind_ok (wait_rounds env site mac (env.rounds s.io.events))
        (λ back. unless_back back (node_row env mac >>= still_away env site aps mac)) s t false away
      ∙ bind_ok (node_row env mac) (still_away env site aps mac) t (asked mac t) (some there)
          (node_row-asked env mac (some there) t second)
      ∙ still_away-moved (asked mac t) other

  pub first_look-here :
      (here : ArtRow) (s : Ap)
      → is_some (lookup mac s.connected_stations) ≡ true
      → (here.current_ap =? site.self_uuid) ≡ true
      → first_look env site aps mac (some here) s ≡ wait_and_remove env site aps mac s
  unfolding first_look
  first_look-here here s known own = rw (known, own) refl

-- A station that is away for the whole wait, and that another access point has by then, stays in
-- the table: the end of the handler raises a TypeError. When it comes back, it is not configured.
pub handle_disconnected-moved :
    (env : Env) (site : Site) (aps : Dict Discovery.Ap) (mac : Text) (here there : ArtRow)
    (s t : Ap)
    → is_some (lookup mac s.connected_stations) ≡ true
    → env.art_row s.io.events (node_uuid mac) ≡ some (some here)
    → (here.current_ap =? site.self_uuid) ≡ true
    → wait_rounds env site mac (env.rounds (asked mac s).io.events) (asked mac s) ≡ (ok false, t)
    → env.art_row t.io.events (node_uuid mac) ≡ some (some there)
    → (there.current_ap =? site.self_uuid) ≡ false
    → (handle_disconnected_station env site aps mac s ≡ (ok tt, asked mac t))
      × (handle_new_connected_station env site aps mac (asked mac t) ≡ (ok tt, asked mac t))
unfolding handle_disconnected_station
handle_disconnected-moved env site aps mac here there s t known first own away second other =
    let kept : t.connected_stations ≡ s.connected_stations =
      sym (ap (λ r. r.1.connected_stations) away)
      ∙ (wait_rounds-Keeps env site mac (env.rounds (asked mac s).io.events)).runs (asked mac s) in
    (
      caught_raise (node_row env mac >>= first_look env site aps mac) s (asked mac t) type_error (
          bind_ok (node_row env mac) (first_look env site aps mac) s (asked mac s) (some here)
            (node_row-asked env mac (some here) s first)
          ∙ first_look-here env site aps mac there here (asked mac s) known own
          ∙ wait_and_remove-moved env site aps mac there (asked mac s) t away second other),
      handle_new-known env site aps mac (asked mac t)
          (ap (λ d. is_some (lookup mac d)) kept ∙ known),
    )
