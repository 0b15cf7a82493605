-- ===== src/AccessPoint/Vxlan/Laws.antt =====
-- The ARP table and the tunnels leave the table of stations as it is.
use smartedge.Base.{ℕ, zero, suc, refl, Bool, true, false, arith}
use smartedge.Base.{Text, codes}
use smartedge.Base.Decimal.{ℤ, pos, negsuc, int}
use smartedge.Base.Exec.{value_error, require, ◌>>=◌}
use smartedge.Swarm.Io.{Process, Env}
use smartedge.AccessPoint.Keeps.{Keeps, shell-Keeps, keeping}
use smartedge.AccessPoint.Vxlan.{
  Site, shell, arp_rounds, get_ip_from_arp_by_physical_mac, get_next_available_vxlan_id, add_vxlan,
  activated, created, create_vxlan_by_host_id, deleted, delete_vxlan_by_host_id, reuse_vxlan,
  fresh_vxlan, choose_vxlan, assign_vxlan,
}

arp_rounds-Keeps :
    (env : Env) (site : Site) (mac : Text) (k : ℕ) → Keeps (arp_rounds env site mac k)
unfolding arp_rounds
arp_rounds-Keeps env site mac zero = record { runs = λ s. refl }
arp_rounds-Keeps env site mac (suc k) = record {
  runs = λ s.
      let t = (shell env (codes "arp -en") s).1 in
      let again = (arp_rounds-Keeps env site mac k).runs t in
      let here = (shell-Keeps env (codes "arp -en")).runs s in ground (arith, again, here);
}

pub get_ip-Keeps :
    (env : Env) (site : Site) (mac : Text) → Keeps (get_ip_from_arp_by_physical_mac env site mac)
unfolding get_ip_from_arp_by_physical_mac
get_ip-Keeps env site mac = record {
  runs = λ s. (arp_rounds-Keeps env site mac (env.rounds s.io.events)).runs s;
}

add_vxlan-Keeps : (id : ℕ) → Keeps (add_vxlan id)
unfolding add_vxlan
add_vxlan-Keeps id = record { runs = λ s. ground arith }

activated-Keeps : (id : ℕ) (b : Bool) → Keeps (activated id b)
unfolding activated
activated-Keeps id true = search keeping
activated-Keeps id false = search keeping

created-Keeps : (env : Env) (id : ℕ) (b : Bool) → Keeps (created env id b)
unfolding created
created-Keeps env id false = search keeping
created-Keeps env id true = search (keeping, add_vxlan-Keeps, activated-Keeps)

pub create_vxlan-Keeps :
    (env : Env) (site : Site) (id : ℕ) (ip : Text) → Keeps (create_vxlan_by_host_id env site id ip)
unfolding create_vxlan_by_host_id
create_vxlan-Keeps env site id ip = search (keeping, created-Keeps)

deleted-Keeps : (id : ℕ) (b : Bool) → Keeps (deleted id b)
unfolding deleted
deleted-Keeps id true = record { runs = λ s. refl }
deleted-Keeps id false = record { runs = λ s. refl }

pub delete_vxlan-Keeps : (env : Env) (id : ℕ) → Keeps (delete_vxlan_by_host_id env id)
unfolding delete_vxlan_by_host_id
delete_vxlan-Keeps env id = search (keeping, deleted-Keeps)

next_vxlan-Keeps : (env : Env) → Keeps (get_next_available_vxlan_id env)
unfolding get_next_available_vxlan_id
next_vxlan-Keeps env = search keeping

reuse_vxlan-Keeps : (env : Env) (i : ℤ) → Keeps (reuse_vxlan env i)
unfolding reuse_vxlan
reuse_vxlan-Keeps env (negsuc n) = search keeping
reuse_vxlan-Keeps env (pos id) = search keeping

fresh_vxlan-Keeps : (env : Env) → Keeps (fresh_vxlan env)
unfolding fresh_vxlan
fresh_vxlan-Keeps env = search (keeping, next_vxlan-Keeps)

reused-Keeps :
    (env : Env) (p : Process) → Keeps (require value_error (int p.stdout) >>= reuse_vxlan env)
reused-Keeps env p = search (keeping, reuse_vxlan-Keeps)

choose_vxlan-Keeps : (env : Env) (p : Process) → Keeps (choose_vxlan env p)
unfolding choose_vxlan
choose_vxlan-Keeps env p = record {
  runs = λ s. ground (arith, (fresh_vxlan-Keeps env).runs s, (reused-Keeps env p).runs s);
}

pub assign_vxlan-Keeps : (env : Env) (ip : Text) → Keeps (assign_vxlan env ip)
unfolding assign_vxlan
assign_vxlan-Keeps env ip = search (keeping, choose_vxlan-Keeps)
