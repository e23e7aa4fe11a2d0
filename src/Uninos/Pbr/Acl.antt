-- ===== src/Uninos/Pbr/Acl.antt =====
-- The ACL of a VRF's policy based routes: `pbrAclCreate`, `pbrAclRemove` and `pbrUpdateGateway`.
pub mod Report
use govtep.Base.{
  ℕ, Bool, false, ◌||◌, Option, none, some, List, [], ◌∷◌, ◌++◌, if◌then◌else◌, Str, str, str_eq,
  Error, for_each, errorf,
}
use govtep.Golang.Text.{before}
use govtep.Golang.Decimal.{itoa}
use govtep.Uninos.Databases.{
  TableExternalIp, TableAutoGatewayConf, Vtepdb, TableAcl, TableInterface, Configdb,
}
use govtep.Uninos.Pbr.Sequence.{eip_address}

abbrev or_empty : Option Str → Str
or_empty none = []
or_empty (some s) = s

pub acl_name_of_vrf : Str → Str
acl_name_of_vrf vrf = str "PBR_" ++ vrf

-- `for _, ipPrefix := range tableSubIF.IP { … eipConfigured = true; break }`
eip_configured : Str → List Str → Bool
unfolding before
eip_configured eip [] = false
eip_configured eip (prefix ∷ ips) = str_eq (before b'/' prefix) eip || eip_configured eip ips

module _ {W : Type 0} (vtepdb : Vtepdb W) (cdb : Configdb W) where
  -- A port that is not found is bound by an empty identifier.
  pbr_acl_ports : Option TableAutoGatewayConf → W → List Str
  pbr_acl_ports none w = []
  pbr_acl_ports (some gateway) w = or_empty (cdb.port_get_by_index w gateway.physical_port) ∷ []

  -- The error of a lookup that failed is what `pbrAclCreate` returns after it has added the ACL: the
  -- error of `ACLAdd` is assigned to a variable that shadows it. If `ACLAdd` fails it returns nil.
  added_acl : Error × W → Error × W
  added_acl (none, w) = (some (errorf "table %v not exist"), w)
  added_acl (some _, w) = (none, w)

  pub pbr_acl : Str → W → TableAcl
  unfolding pbr_acl_ports acl_name_of_vrf
  pbr_acl vrf w = record {
    acl_name = acl_name_of_vrf vrf;
    ports = pbr_acl_ports (vtepdb.auto_gateway_conf_get_by_index w vrf) w;
  }

  create_pbr_acl : Option TableAcl → Str → W → Error × W
  unfolding pbr_acl added_acl
  create_pbr_acl (some _) vrf w = (none, w)
  create_pbr_acl none vrf w = added_acl (cdb.acl_add (pbr_acl vrf w) w)

  -- `pbrAclCreate`
  unfoldable pub pbr_acl_create : Str → W → Error × W
  unfolding create_pbr_acl acl_name_of_vrf
  pbr_acl_create vrf w = create_pbr_acl (cdb.acl_get_by_index w (acl_name_of_vrf vrf)) vrf w

  -- `pbrAclRemove`
  unfoldable pub pbr_acl_remove : Str → W → Error × W
  unfolding acl_name_of_vrf
  pbr_acl_remove vrf w = cdb.acl_del_by_index (acl_name_of_vrf vrf) w

  -- The ACL of an existing gateway follows its port, if it has exactly one.
  bind_ports : List Str → Str → Str → W → W
  bind_ports (port ∷ []) name uuid w =
      if str_eq port uuid then w else (cdb.acl_set_ports name (uuid ∷ []) w).1
  bind_ports _ name uuid w = w

  bind_port : Option TableAcl → Str → Str → W → W
  unfolding bind_ports
  bind_port none name uuid w = w
  bind_port (some acl) name uuid w = bind_ports acl.ports name uuid w

  add_missing_eip : Str → List Str → TableExternalIp → W → W
  unfolding eip_configured eip_address
  add_missing_eip sub_if ips row w =
      let eip = eip_address row.ip in
      if eip_configured eip ips
      then w
      else (cdb.interface_update_ip_addvalue sub_if ((eip ++ str "/32") ∷ []) w).1

  add_missing_eips : Option TableInterface → Str → Str → W → W
  unfolding add_missing_eip for_each
  add_missing_eips none sub_if vrf w = w
  add_missing_eips (some interface) sub_if vrf w =
      for_each (vtepdb.external_ip_get w vrf) (add_missing_eip sub_if interface.ip) w

  -- `pbrUpdateGateway`
  pbr_update_gateway : Str → Str → ℕ → W → Error × W
  unfolding bind_port add_missing_eips acl_name_of_vrf
  pbr_update_gateway vrf port vlan w =
      let uuid = or_empty (cdb.port_get_by_index w port) in
      let name = acl_name_of_vrf vrf in
      let w1 = bind_port (cdb.acl_get_by_index w name) name uuid w in
      let sub_if = port ++ str "." ++ itoa vlan in
      (none, add_missing_eips (cdb.interface_get_by_index w1 sub_if) sub_if vrf w1)
