-- ===== src/Tai/Object.antt =====
-- The object identifiers of tai/tai_common.go, and the tables of the VTEP database that hold them
-- (tai/tai.go). The table names are those of cmd/odbgen/schema/controller_vtep.ovsschema.
use govtep.Base.{String, Option, none, some, if◌then◌else◌}
use text.Mathlib.Text.{◌==◌ as text_eq}

pub data ObjId : Type 0 where
  bridge vrf l2_port l3_port fdb neighbour route tunnel : ObjId
  mcast_fdb acl acl_rule pbr auto_gateway_conf : ObjId

-- `ObjectOrder`
object_order : ObjId → String
object_order bridge = "Bridge"
object_order vrf = "Vrf"
object_order l2_port = "L2Port"
object_order l3_port = "L3Port"
object_order fdb = "FDB"
object_order neighbour = "Neighbour"
object_order route = "Route"
object_order tunnel = "Tunnel"
object_order mcast_fdb = "McastFDB"
object_order acl = "ACL"
object_order acl_rule = "ACLRule"
object_order pbr = "PBR"
object_order auto_gateway_conf = "AutoGatewayConf"

-- `getObjIDByTblName`; `none` is the error "undefined tai object".
pub obj_id_by_tbl_name : String → Option ObjId
obj_id_by_tbl_name name =
    if text_eq name "Bridge_Domain"
    then some bridge
    else if text_eq name "VRF"
    then some vrf
    else if text_eq name "L2Port"
    then some l2_port
    else if text_eq name "L3Port"
    then some l3_port
    else if text_eq name "Locator"
    then some tunnel
    else if text_eq name "Remote_Fdb"
    then some fdb
    else if text_eq name "Route"
    then some route
    else if text_eq name "Remote_Neigh"
    then some neighbour
    else if text_eq name "Mcast_Macs_Local"
    then some mcast_fdb
    else if text_eq name "ACL"
    then some acl
    else if text_eq name "ACL_Rule"
    then some acl_rule
    else if text_eq name "Policy_Based_Route"
    then some pbr
    else if text_eq name "Auto_Gateway_Conf"
    then some auto_gateway_conf
    else none
