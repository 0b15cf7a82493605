-- ===== src/AccessPoint/Connect/Laws.antt =====
-- What the handling of a new station keeps.
use smartedge.Base.{ℕ, ◌≡◌, refl, true}
use smartedge.Base.{Text, is_some}
use smartedge.Base.Dict.{Dict, lookup}
use smartedge.Base.Exec.{ok}
use smartedge.Swarm.Io.{Env}
use smartedge.Swarm.Discovery
use smartedge.AccessPoint.Keeps.{Keeps, keeping}
use smartedge.AccessPoint.Vxlan.{Ap, Site}
use smartedge.AccessPoint.Vxlan.Laws.{create_vxlan-Keeps}
use smartedge.AccessPoint.Connect.{attach_tunnel, handle_new_connected_station}

pub attach_tunnel-Keeps :
    (env : Env) (site : Site) (id : ℕ) (ip : Text) → Keeps (attach_tunnel env site id ip)
unfolding attach_tunnel
attach_tunnel-Keeps env site id ip = search (keeping, create_vxlan-Keeps)

-- A station that is in the table is handled as no news: nothing happens.
pub handle_new-known :
    (env : Env) (site : Site) (aps : Dict Discovery.Ap) (mac : Text) (s : Ap)
    → is_some (lookup mac s.connected_stations) ≡ true
    → handle_new_connected_station env site aps mac s ≡ (ok tt, s)
unfolding handle_new_connected_station
handle_new-known env site aps mac s h = rw (h) refl
