-- ===== src/Launch/Tests.antt =====
-- Names of nodes.
use smartedge.Base.{◌≡◌, ltb, ◌=?◌, arith}
use smartedge.Address.{int_to_mac}
use smartedge.AccessPoint.Connect.{node_uuid}
use smartedge.Launch.{sn, self_uuid_str}
use smartedge.Launch.Names.{node_uuid-self_uuid_str}

-- SN000012 is SN00000c to the access point.
node_uuid-self_uuid_str_example : (node_uuid (int_to_mac 12) =? self_uuid_str sn 12) ≡ ltb 12 10
node_uuid-self_uuid_str_example = node_uuid-self_uuid_str 12 (omega arith)
