-- ===== src/AccessPoint/Disconnect/Laws.antt =====
-- The wait for a station that left keeps the table of stations.
use smartedge.Base.{ℕ, zero, suc, refl, arith}
use smartedge.Base.{Text}
use smartedge.Base.Exec.{◌>>◌}
use smartedge.Swarm.Io.{Env}
use smartedge.AccessPoint.Keeps.{Keeps, keeping, bind-Keeps, shell-Keeps}
use smartedge.AccessPoint.Vxlan.{Site, shell}
use smartedge.AccessPoint.Vxlan.Laws.{get_ip-Keeps}
use smartedge.AccessPoint.Disconnect.{dump_command, ping, wait_rounds}

ping-Keeps : (env : Env) (site : Site) (mac : Text) → Keeps (ping env site mac)
unfolding ping
ping-Keeps env site mac = search (keeping, get_ip-Keeps)

pub wait_rounds-Keeps :
    (env : Env) (site : Site) (mac : Text) (k : ℕ) → Keeps (wait_rounds env site mac k)
unfolding wait_rounds
wait_rounds-Keeps env site mac zero = record { runs = λ s. refl }
wait_rounds-Keeps env site mac (suc k) =
    let again : Keeps (ping env site mac >> wait_rounds env site mac k) =
      bind-Keeps (ping-Keeps env site mac) (λ _. wait_rounds-Keeps env site mac k) in
    record {
      runs = λ s.
          ground
            (arith, again.runs (shell env dump_command s).1, (shell-Keeps env dump_command).runs s);
    }
