-- ===== src/AccessPoint/Disconnect/Removed.antt =====
-- When a station that left is taken out of the table of stations.
use smartedge.Base.{◌≡◌}
use smartedge.Base.{Text}
use smartedge.Base.Dict.{Dict, erase}
use smartedge.Base.Exec.{Exec, ◌>>◌}
use smartedge.Swarm.Discovery
use smartedge.AccessPoint.Keeps.{Keeps}
use smartedge.AccessPoint.Vxlan.{Station}

-- The table loses the station.
abbrev Loses : Text → Dict Station → Dict Station → Type 0
Loses mac d d' = d' ≡ erase mac d
