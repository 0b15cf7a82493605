-- ===== src/AccessPoint/Connect/Table.antt =====
-- When a new station enters the table of stations.
use smartedge.Base.{
  ℕ, ◌≡◌, refl, sym, ap, ◌∙◌, Bool, true, false, not, Option, none, some, [], ◌∷◌, ◌++◌, ◌&&◌, ◌==◌,
  inl, inr, Bool-cases,
}
use smartedge.Base.{Text, is_some, if◌then◌else◌}
use smartedge.Base.Dict.{Dict, lookup, insert}
use smartedge.Base.Exec.{Exec, ok, require, lift, ◌>>=◌}
use smartedge.Address.{int_to_mac, ip_address, assign_virtual_mac_and_ip_by_host_id}
use smartedge.Swarm.Io.{ArtRow, Env, select_art, query}
use smartedge.Swarm.Database.{execute_read, get_node_info_from_art, get_next_available_host_id}
use smartedge.Swarm.Settings.{this_swarm_subnet, this_swarm_dhcp_start, this_swarm_dhcp_end}
use smartedge.Swarm.Discovery
use smartedge.AccessPoint.Keeps.{Changes, Keeps, Changes-before, outside-Keeps, keeping, bind_ok}
use smartedge.AccessPoint.Vxlan.{
  Station, Ap, Site, outside, get_ip_from_arp_by_physical_mac, assign_vxlan,
}
use smartedge.AccessPoint.Vxlan.Laws.{get_ip-Keeps, assign_vxlan-Keeps}
use smartedge.AccessPoint.Connect.{
  node_uuid, send_swarm_node_config, connect_station, attach_tunnel, default_ip, default_config,
  enter_default, configure_default, swarm_config, enter_swarm, configure_swarm, configure,
  addressed, handle_new_connected_station,
}
use smartedge.AccessPoint.Connect.Laws.{attach_tunnel-Keeps, handle_new-known}

abbrev station_of : Text → Text → ℕ → Station
station_of mac vip id = record { mac = mac; vip = vip; vxlan_id = id }

-- The table gains the station.
abbrev Gains : Text → Station → Dict Station → Dict Station → Type 0
Gains mac station d d' = d' ≡ insert mac station d

connect_station-Gains :
    (mac vip : Text) (id : ℕ)
    → Changes (Gains mac (station_of mac vip id)) (connect_station mac vip id)
unfolding connect_station
connect_station-Gains mac vip id = record { runs = λ s. refl }

module _ {A B : Type 0} (mac : Text) (station : Station) {m : Exec Ap A} {f : A → Exec Ap B} where
  Gains-then :
      Changes (Gains mac station) m
      → ((a : A) → Keeps (f a))
      → Changes (Gains mac station) (m >>= f)
  Gains-then c k = Changes-before c k

-- A state after one more event.
abbrev pub asked : Text → Ap → Ap
asked mac s = record s {
  io = record s.io { events = s.io.events ++ query (select_art (node_uuid mac)) ∷ [] };
}

-- The table with the station, where the node has answered.
abbrev pub table_with : Bool → Text → Text → ℕ → Dict Station → Dict Station
table_with done mac vip id d =
    if done then insert mac (record { mac = mac; vip = vip; vxlan_id = id }) d else d

module _ (env : Env) (site : Site) (aps : Dict Discovery.Ap) (mac : Text) (id : ℕ)
    (vip : Text) where
  entered-Gains :
      Changes (Gains mac (station_of mac vip id)) (enter_default env site aps mac id vip true)
  unfolding enter_default
  entered-Gains = search (Gains-then, keeping, connect_station-Gains)

  enter_default-table :
      (done : Bool) (s : Ap)
      → (enter_default env site aps mac id vip done s).1.connected_stations
        ≡ table_with done mac vip id s.connected_stations
  unfolding enter_default
  enter_default-table false s = refl
  enter_default-table true s = entered-Gains.runs s

  swarm-Gains :
      (row : ArtRow) (host_id : ℕ) (vmac : Text)
      → Changes
          (Gains mac (station_of mac vip id))
          (enter_swarm env site aps mac id row host_id vip vmac true)
  unfolding enter_swarm
  swarm-Gains row host_id vmac = search (Gains-then, keeping, connect_station-Gains) depth 12

  enter_swarm-table :
      (row : ArtRow) (host_id : ℕ) (vmac : Text) (done : Bool) (s : Ap)
      → (enter_swarm env site aps mac id row host_id vip vmac done s).1.connected_stations
        ≡ table_with done mac vip id s.connected_stations
  unfolding enter_swarm
  enter_swarm-table row host_id vmac false s = refl
  enter_swarm-table row host_id vmac true s = (swarm-Gains row host_id vmac).runs s

-- A row of no swarm.
abbrev pub is_default : Option ArtRow → Bool
is_default none = true
is_default (some row) = row.current_swarm == 0

kept :
    {A : Type 0} {m : Exec Ap A} {s t : Ap} {a : A}
    → Keeps m
    → m s ≡ (ok a, t)
    → t.connected_stations ≡ s.connected_stations
kept {s} k h = sym (ap (λ r. r.1.connected_stations) h) ∙ k.runs s

module _ (env : Env) (site : Site) (aps : Dict Discovery.Ap) (mac ip : Text) (row : Option ArtRow)
    (s t : Ap) where
  handle-addressed :
      is_some (lookup mac s.connected_stations) ≡ false
      → get_ip_from_arp_by_physical_mac env site mac s ≡ (ok (some ip), t)
      → handle_new_connected_station env site aps mac s ≡ addressed env site aps mac (some ip) t
  unfolding handle_new_connected_station
  handle-addressed new there = rw new (
      bind_ok (get_ip_from_arp_by_physical_mac env site mac) (addressed env site aps mac) s t
        (some ip) there)

  addressed-configure :
      env.art_row t.io.events (node_uuid mac) ≡ some row
      → addressed env site aps mac (some ip) t ≡ configure env site aps mac ip row (asked mac t)
  unfolding addressed outside get_node_info_from_art execute_read require ◌>>=◌
  addressed-configure found = rw found refl

configure-default :
    (env : Env) (site : Site) (aps : Dict Discovery.Ap) (mac ip : Text) (row : Option ArtRow)
    (s : Ap)
    → is_default row ≡ true
    → configure env site aps mac ip row s
      ≡ (assign_vxlan env ip >>= configure_default env site aps mac ip) s
unfolding configure
configure-default env site aps mac ip none s h = refl
configure-default env site aps mac ip (some row) s h = rw h refl

configure-swarm :
    (env : Env) (site : Site) (aps : Dict Discovery.Ap) (mac ip : Text) (row : ArtRow) (s : Ap)
    → is_default (some row) ≡ false
    → configure env site aps mac ip (some row) s
      ≡ (assign_vxlan env ip >>= configure_swarm env site aps mac ip row) s
unfolding configure
configure-swarm env site aps mac ip row s h = rw h refl

default-enter :
    (env : Env) (site : Site) (aps : Dict Discovery.Ap) (mac ip vip : Text) (id a : ℕ) (s t : Ap)
    → attach_tunnel env site id ip s ≡ (ok tt, t)
    → default_ip ip ≡ some vip
    → ip_address vip ≡ ok a
    → let config = default_config site id vip (int_to_mac a) in
      (configure_default env site aps mac ip (some id) s).1.connected_stations
      ≡ table_with (env.connect t.io.events ip config) mac vip id t.connected_stations
unfolding configure_default send_swarm_node_config require lift ◌>>=◌
default-enter env site aps mac ip vip id a s t attached has_ip parsed =
    let config = default_config site id vip (int_to_mac a) in
    rw (attached, has_ip, parsed)
      (enter_default-table env site aps mac id vip (env.connect t.io.events ip config)
        (send_swarm_node_config env ip config t).1)

swarm-enter :
    (env : Env) (site : Site) (aps : Dict Discovery.Ap) (mac ip vip vmac : Text) (id host_id : ℕ)
    (row : ArtRow) (s t u : Ap)
    → attach_tunnel env site id ip s ≡ (ok tt, t)
    → outside
        (get_next_available_host_id env this_swarm_dhcp_start this_swarm_dhcp_end (node_uuid mac))
        t
      ≡ (ok host_id, u)
    → assign_virtual_mac_and_ip_by_host_id this_swarm_subnet host_id ≡ ok (vmac, vip)
    → let config = swarm_config site id vip vmac row.current_swarm in
      (configure_swarm env site aps mac ip row (some id) s).1.connected_stations
      ≡ table_with (env.connect u.io.events ip config) mac vip id u.connected_stations
unfolding configure_swarm send_swarm_node_config lift ◌>>=◌
swarm-enter env site aps mac ip vip vmac id host_id row s t u attached given assigned =
    let config = swarm_config site id vip vmac row.current_swarm in
    let free =
      outside (
        get_next_available_host_id env this_swarm_dhcp_start this_swarm_dhcp_end (node_uuid mac)) in
    let send : ℕ → Exec Ap (Unit {0}) = λ h.
      lift (assign_virtual_mac_and_ip_by_host_id this_swarm_subnet h) >>= λ x.
      send_swarm_node_config env ip (swarm_config site id x.1 x.0 row.current_swarm) >>= λ done.
      enter_swarm env site aps mac id row h x.1 x.0 done in
    ap (λ r. r.1.connected_stations)
      (bind_ok (attach_tunnel env site id ip) (λ _. free >>= send) s t tt attached
        ∙ bind_ok free send t u host_id given)
    ∙ rw assigned (
        enter_swarm-table env site aps mac id vip row host_id vmac
          (env.connect u.io.events ip config) (send_swarm_node_config env ip config u).1)

module _ (env : Env) (site : Site) (aps : Dict Discovery.Ap) (mac ip vip : Text) (s t u v : Ap)
    (id : ℕ) where
  -- Up to the choice of the tunnel the table is kept.
  to_tunnel :
      (row : Option ArtRow) (f : Option ℕ → Exec Ap (Unit {0}))
      → get_ip_from_arp_by_physical_mac env site mac s ≡ (ok (some ip), t)
      → env.art_row t.io.events (node_uuid mac) ≡ some row
      → assign_vxlan env ip (asked mac t) ≡ (ok (some id), u)
      → configure env site aps mac ip row (asked mac t) ≡ (assign_vxlan env ip >>= f) (asked mac t)
      → attach_tunnel env site id ip u ≡ (ok tt, v)
      → is_some (lookup mac s.connected_stations) ≡ false
      → (handle_new_connected_station env site aps mac s ≡ f (some id) u)
        × (v.connected_stations ≡ s.connected_stations)
  to_tunnel row f there found chosen configured attached new = (
    handle-addressed env site aps mac ip row s t new there
        ∙ addressed-configure env site aps mac ip row s t found
        ∙ configured
        ∙ bind_ok (assign_vxlan env ip) f (asked mac t) u (some id) chosen,
    kept (attach_tunnel-Keeps env site id ip) attached
        ∙ kept (assign_vxlan-Keeps env ip) chosen
        ∙ kept (get_ip-Keeps env site mac) there,
  )

  -- For a station with an address in the ARP table and a tunnel, whose node is in no swarm, the
  -- table of stations gains the station, with the default address and its tunnel, exactly when it
  -- was not in the table and the node answered OK! to its configuration, whatever the database and
  -- the switches answer afterwards; otherwise the table stays.
  pub handle_new-default :
      (row : Option ArtRow) (a : ℕ)
      → get_ip_from_arp_by_physical_mac env site mac s ≡ (ok (some ip), t)
      → env.art_row t.io.events (node_uuid mac) ≡ some row
      → is_default row ≡ true
      → assign_vxlan env ip (asked mac t) ≡ (ok (some id), u)
      → attach_tunnel env site id ip u ≡ (ok tt, v)
      → default_ip ip ≡ some vip
      → ip_address vip ≡ ok a
      → let config = default_config site id vip (int_to_mac a) in
        let new = not (is_some (lookup mac s.connected_stations)) in
        (handle_new_connected_station env site aps mac s).1.connected_stations
        ≡ table_with (new && env.connect v.io.events ip config) mac vip id s.connected_stations
  handle_new-default row a there found default chosen attached has_ip parsed =
      elim (Bool-cases (is_some (lookup mac s.connected_stations))) [
        | inl known ↦ rw (handle_new-known env site aps mac s known, known) refl
        | inr new ↦
            let (run, same) =
              to_tunnel row (configure_default env site aps mac ip) there found chosen
                (configure-default env site aps mac ip row (asked mac t) default) attached new in
            ap (λ r. r.1.connected_stations) run
            ∙ default-enter env site aps mac ip vip id a u v attached has_ip parsed
            ∙ rw (new, same) refl
      ]

  -- For a station with an address in the ARP table and a tunnel, whose node is in a swarm and is
  -- given a host identifier, the table of stations gains the station, with the addresses of that
  -- identifier and its tunnel, exactly when it was not in the table and the node answered OK! to
  -- its configuration, whatever the database and the switches answer afterwards; otherwise the
  -- table stays.
  pub handle_new-swarm :
      (row : ArtRow) (vmac : Text) (host_id : ℕ) (w : Ap)
      → get_ip_from_arp_by_physical_mac env site mac s ≡ (ok (some ip), t)
      → env.art_row t.io.events (node_uuid mac) ≡ some (some row)
      → is_default (some row) ≡ false
      → assign_vxlan env ip (asked mac t) ≡ (ok (some id), u)
      → attach_tunnel env site id ip u ≡ (ok tt, v)
      → outside
          (get_next_available_host_id env this_swarm_dhcp_start this_swarm_dhcp_end (node_uuid mac))
          v
        ≡ (ok host_id, w)
      → assign_virtual_mac_and_ip_by_host_id this_swarm_subnet host_id ≡ ok (vmac, vip)
      → let config = swarm_config site id vip vmac row.current_swarm in
        let new = not (is_some (lookup mac s.connected_stations)) in
        (handle_new_connected_station env site aps mac s).1.connected_stations
        ≡ table_with (new && env.connect w.io.events ip config) mac vip id s.connected_stations
  handle_new-swarm row vmac host_id w there found in_swarm chosen attached given assigned =
      elim (Bool-cases (is_some (lookup mac s.connected_stations))) [
        | inl known ↦ rw (handle_new-known env site aps mac s known, known) refl
        | inr new ↦
            let (run, same) =
              to_tunnel (some row) (configure_swarm env site aps mac ip row) there found chosen
                (configure-swarm env site aps mac ip row (asked mac t) in_swarm) attached new in
            let stays =
              kept
                (outside-Keeps (
                  get_next_available_host_id env this_swarm_dhcp_start this_swarm_dhcp_end
                    (node_uuid mac)))
                given in
            ap (λ r. r.1.connected_stations) run
            ∙ swarm-enter env site aps mac ip vip vmac id host_id row u v w attached given assigned
            ∙ rw (new, stays, same) refl
      ]
