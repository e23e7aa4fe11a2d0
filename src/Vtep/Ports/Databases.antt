-- ===== src/Vtep/Ports/Databases.antt =====
-- The table functions that the handlers of port bindings call, as parameters (see Vtep.Databases).
use govtep.Vtep.Vnet.{TableDatapathBinding}
use govtep.Base.{ℕ, Bool, Option, List, Str, Error}

-- Rows, with the columns that the code reads or writes.
pub record TableRoute : Type 0 where
  pub uuid : Str
  pub vrf : Str
  pub ip_prefix : Str
  pub nexthop : Str
  pub nh_vrf : Str
  pub output_port : Str
  pub remote_locator : Str
  pub policy : Str

pub record TableRemoteFdb : Type 0 where
  pub bridge : Str
  pub mac : Str
  pub remote_locator : Str

pub record TableRemoteNeigh : Type 0 where
  pub uuid : Str
  pub out_l3port : Str
  pub ipaddr : Str
  pub mac : Str
  pub remote_locator : Str

pub record TableL2port : Type 0 where
  pub uuid : Str
  pub name : Str
  pub bd : Str
  pub vlantag : List ℕ
  pub peerport : Str
  pub peertype : Str
  pub logical_port : Str
  pub phyparent_port : Str
  pub type : Str

pub record TableL3port : Type 0 where
  pub uuid : Str
  pub name : Str
  pub vrf : Str
  pub ipv4addr : List Str
  pub ipv6addr : List Str
  pub vlantag : List ℕ
  pub peerport : Str
  pub peertype : Str
  pub logical_port : Str
  pub phyparent_port : Str
  pub type : Str
  pub neighbour : List Str

pub record TableAutoGatewayConf : Type 0 where
  pub uuid : Str
  pub physical_port : Str
  pub vrf : Str
  pub bdname : Str
  pub vlan : ℕ
  pub ip : Str

-- The tables of lib/odbapi/controllervtep that hold ports and what is forwarded to remote ones. A
-- `…_delvalue` takes row identifiers out of a column of the row that is named.
pub record Portdb (W : Type 0) : Type 0 where
  pub bridge_domain_exists : W → Str → Bool
  -- `VrfGetByIndex`: the column `name`
  pub vrf_get_by_index : W → Str → Option Str
  -- by VRF and prefix
  pub route_get_by_index : W → Str → Str → Option TableRoute
  -- `RouteGet` under the condition `remote_locator == …`
  pub route_get : W → Str → List TableRoute
  pub route_set_nexthop : Str → Str → W → Error × W
  pub vrf_update_add_route : Str → TableRoute → W → Error × W
  pub vrf_update_route_delvalue : Str → List Str → W → Error × W
  -- by bridge and MAC: the row's identifier
  pub remote_fdb_get_by_index : W → Str → Str → Option Str
  pub bridge_domain_update_add_unicastfdb : Str → TableRemoteFdb → W → Error × W
  pub bridge_domain_update_unicastfdb_delvalue : Str → List Str → W → Error × W
  -- by address and MAC
  pub remote_neigh_get_by_index : W → Str → Str → Option TableRemoteNeigh
  pub remote_neigh_get_by_uuid : W → Str → Option TableRemoteNeigh
  pub l3port_update_add_neighbour : Str → TableRemoteNeigh → W → Error × W
  pub l3port_update_neighbour_delvalue : Str → List Str → W → Error × W
  -- by name, and by logical port
  pub l2port_get_by_index1 : W → Str → Option TableL2port
  pub l2port_get_by_index : W → Str → Option TableL2port
  pub bridge_domain_update_add_l2ports : Str → TableL2port → W → Error × W
  pub bridge_domain_update_l2ports_delvalue : Str → List Str → W → Error × W
  pub l3port_get_by_index1 : W → Str → Option TableL3port
  pub l3port_get_by_index : W → Str → Option TableL3port
  pub vrf_update_add_l3ports : Str → TableL3port → W → Error × W
  pub vrf_update_l3ports_delvalue : Str → List Str → W → Error × W
  -- `LocatorGetByUUID`: the column `ipaddr`
  pub locator_get_by_uuid : W → Str → Option (List Str)
  -- by VRF
  pub auto_gateway_conf_get_by_index : W → Str → Option TableAutoGatewayConf
  -- `AutoGatewayConfGet` under the conditions `bdname == …` and `vlan == …`
  pub auto_gateway_conf_get : W → Str → ℕ → List TableAutoGatewayConf
  pub auto_gateway_conf_set : Str → TableAutoGatewayConf → W → Error × W

-- A port binding; `mac` holds words of MACs and addresses, `options` is a map from strings to
-- strings.
pub record TablePortBinding : Type 0 where
  pub logical_port : Str
  pub datapath : Str
  pub mac : List Str
  pub nat_addresses : List Str
  pub parent_port : List Str
  pub type : Str
  pub tunnel_key : ℕ
  pub tag : List ℕ
  pub chassis : List Str
  pub options : List (Str × Str)

-- The values of `hardware_gateway_chassis`.
pub data HardwareGateway : Type 0 where
  physical_switch physical_switch_group other_gateway : HardwareGateway

pub record TableGatewayChassis : Type 0 where
  pub chassis_uuid : Str
  pub name : Str
  pub hardware_gateway_chassis : List HardwareGateway

-- What says where a port is: lib/odbapi/ovnsouthbound, lib/odbapi/ovnnorthbound, and the physical
-- switches and locators of lib/odbapi/controllervtep.
pub record Bindingdb (W : Type 0) : Type 0 where
  pub datapath_binding_get_by_uuid : W → Str → Option TableDatapathBinding
  -- by logical port
  pub port_binding_get_by_index1 : W → Str → Option TablePortBinding
  -- `PortBindingGet` under the conditions `datapath == …` and `type == "patch"`
  pub port_binding_get : W → Str → List TablePortBinding
  pub port_binding_set_chassis : Str → Str → W → Error × W
  pub port_binding_update_chassis_delvalue : Str → List Str → W → Error × W
  pub chassis_get_by_uuid : W → Str → Option TableGatewayChassis
  -- by name
  pub chassis_get_by_index : W → Str → Option TableGatewayChassis
  -- by name: the column `system_id`
  pub physical_switch_get_by_index : W → Str → Option Str
  -- by the name of a chassis: the row's identifier
  pub locator_get_by_index : W → Str → Option Str
  -- `LocatorGet` under the condition `local_locator == true`: the names of the chassis
  pub local_locator_get : W → List Str
  -- the column `ports`
  pub logical_switch_get_by_index : W → Str → Option (List Str)
  -- the key `neutron:cidrs` of `external_ids`
  pub logical_switch_port_get_by_uuid : W → Str → Option (Option Str)
