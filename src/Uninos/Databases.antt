-- ===== src/Uninos/Databases.antt =====
-- The table functions that driver/uninos calls. cmd/odbgen generates them from the schemas when the
-- program is built, so they are parameters here: a read is a function of the world `W`, `none` where
-- the generated function returns an error; a write returns its error and the new world.
use govtep.Base.{ℕ, Option, List, Str, Error}
use govtep.Golang.Int.{ℤ}

-- Rows, with the columns that the driver reads or writes.
pub record ExternalIpIndex : Type 0 where
  pub ip : Str
  pub vrf : Str

pub record TableExternalIp : Type 0 where
  pub uuid : Str
  pub ip : Str
  pub vrf : Str
  pub sequence : ℤ
  pub ref_count : ℤ

pub record TableAutoGatewayConf : Type 0 where
  pub physical_port : Str
  pub vlan : ℕ
  pub ip : Str

-- lib/odbapi/controllervtep
pub record Vtepdb (W : Type 0) : Type 0 where
  pub external_ip_get_by_index : W → ExternalIpIndex → Option TableExternalIp
  -- `ExternalIPGet` under the condition `vrf == …`, with each row converted
  pub external_ip_get : W → Str → List TableExternalIp
  pub external_ip_set_ref_count : ExternalIpIndex → ℤ → W → Error × W
  pub external_ip_set_sequence : ExternalIpIndex → ℤ → W → Error × W
  pub vrf_update_add_external_ips : Str → TableExternalIp → W → Error × W
  pub vrf_update_external_ips_delvalue : Str → Str → W → Error × W
  pub auto_gateway_conf_get_by_index : W → Str → Option TableAutoGatewayConf

pub record TableAcl : Type 0 where
  pub acl_name : Str
  pub ports : List Str

pub record AclRuleIndex : Type 0 where
  pub acl_name : Str
  pub sequence : ℤ

pub record TableAclRule : Type 0 where
  pub uuid : Str
  pub acl_name : Str
  pub sequence : ℤ
  pub dst_ip : List Str
  pub ip_protocol : List ℕ
  pub l4_dst_port : List ℕ
  pub redirect_ecmpgroup : List Str

pub record TableEcmpGroup : Type 0 where
  pub id : ℕ
  pub nexthop_group : List Str

-- The index of a nexthop, and the columns of a new one.
pub record NexthopIndex : Type 0 where
  pub ip : Str
  pub nexthop_vrf : Str
  pub label : ℤ

pub record TableInterface : Type 0 where
  pub ip : List Str

-- lib/odbapi/unosconfig. A port, a nexthop and a rule are known by their identifiers; an interface
-- is a sub-port, known by its name.
pub record Configdb (W : Type 0) : Type 0 where
  pub acl_get_by_index : W → Str → Option TableAcl
  pub acl_add : TableAcl → W → Error × W
  pub acl_del_by_index : Str → W → Error × W
  pub acl_set_ports : Str → List Str → W → Error × W
  pub port_get_by_index : W → Str → Option Str
  pub interface_get_by_index : W → Str → Option TableInterface
  pub interface_update_ip_addvalue : Str → List Str → W → Error × W
  pub interface_update_ip_delvalue : Str → List Str → W → Error × W
  pub acl_rule_get_by_index : W → AclRuleIndex → Option TableAclRule
  pub acl_update_add_rule_name : Str → TableAclRule → W → Error × W
  pub acl_update_rule_name_delvalue : Str → Str → W → Error × W
  pub ecmp_group_get_by_index : W → ℕ → Option TableEcmpGroup
  pub ecmp_group_get_by_uuid : W → Str → Option TableEcmpGroup
  pub ecmp_group_add : TableEcmpGroup → W → (Str × Error) × W
  pub ecmp_group_del_by_uuid : Str → W → Error × W
  pub ecmp_group_update_add_nexthop_group : ℕ → NexthopIndex → W → Error × W
  pub ecmp_group_update_nexthop_group_addvalue : ℕ → Str → W → Error × W
  pub ecmp_group_update_nexthop_group_delvalue : ℕ → List Str → W → Error × W
  pub nexthop_get_by_index : W → NexthopIndex → Option Str
