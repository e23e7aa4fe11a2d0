-- ===== src/Vtep/Databases.antt =====
-- The table functions that go_vtep calls. cmd/odbgen generates them, and the constants, from the
-- schemas when the program is built, so they are parameters here: a read is a function of the world
-- `W`, `none` where the generated function returns an error; a write returns its error and the world.
use govtep.Base.{Bool, Option, none, some, List, [], ◌∷◌, Str, Error}
use govtep.Golang.Int.{ℤ}

-- Rows, with the columns that the code reads or writes.
pub record TablePolicyBasedRoute : Type 0 where
  pub uuid : Str
  pub type : Str
  pub ip : Str
  pub port : List ℤ
  pub protocol : List Str
  pub vrf : Str
  pub nh_vrf : Str
  pub logical_ips : List Str
  pub nh_group : List Str

pub record PolicyBasedRouteIndex : Type 0 where
  pub type : Str
  pub ip : Str
  pub port : ℤ
  pub vrf : Str
  pub protocol : Str

-- `rmac_map` is a map from addresses to MACs.
pub record TableLocator : Type 0 where
  pub uuid : Str
  pub chassis_name : Str
  pub ipaddr : List Str
  pub route_mac : Str
  pub local_locator : Bool
  pub rmac_map : List (Str × Str)

-- lib/odbapi/controllervtep
pub record Vtepdb (W : Type 0) : Type 0 where
  pub type_lb : Str
  pub type_snat : Str
  pub protocol_ignore : Str
  -- `RouteGetByIndex` by prefix and VRF: the column `nexthop`
  pub route_get_by_index : W → Str → Str → Option Str
  pub locator_get : W → List TableLocator
  pub policy_based_route_get : W → List TablePolicyBasedRoute
  -- the row's identifier
  pub policy_based_route_get_by_index : W → PolicyBasedRouteIndex → Option Str
  pub policy_based_route_update_nh_group_addvalue : Str → List Str → W → Error × W
  pub policy_based_route_update_nh_group_delvalue : Str → List Str → W → Error × W
  pub vrf_update_add_pbr : Str → TablePolicyBasedRoute → W → Error × W
  pub vrf_update_pbr_delvalue : Str → Str → W → Error × W
  -- `VrfGet` under the condition `lrname == …`: the names of the rows
  pub vrf_get : W → Str → List Str

-- The column `vips` is a map from strings to strings.
pub record TableLoadBalancer : Type 0 where
  pub protocol : List Str
  pub vips : List (Str × Str)
  pub applied_lr : List Str

-- `datapath` is the value of that key of `external_ids`, none unless it is a string.
pub record TableNat : Type 0 where
  pub type : Str
  pub external_ip : Str
  pub logical_ip : Str
  pub datapath : Option Str

pub record TableLogicalRouter : Type 0 where
  pub uuid : Str
  pub load_balancer : List Str
  pub nat : List Str

-- lib/odbapi/ovnnorthbound
pub record Ovnnb (W : Type 0) : Type 0 where
  pub protocol_tcp : Str
  pub load_balancer_get_by_uuid : W → Str → Option TableLoadBalancer
  pub load_balancer_update_applied_lr_addvalue : Str → List Str → W → Error × W
  pub load_balancer_update_applied_lr_delvalue : Str → List Str → W → Error × W
  pub nat_get_by_uuid : W → Str → Option TableNat
  -- `NatUpdateExternalIdsSetkey` of the key `datapath`
  pub nat_update_datapath : Str → Str → W → Error × W

-- `oldValue` of a column that holds a set of identifiers: one of them, a set of values of which only
-- identifiers count (`none` is another value), or a value of another type.
pub data OldValue : Type 0 where
  one_uuid : Str → OldValue
  uuid_set : List (Option Str) → OldValue
  other_old : OldValue

-- Rows of the southbound database and of the physical switches that locators are made of.
pub record TableChassis : Type 0 where
  pub name : Str
  pub encaps : List Str

pub record TableEncap : Type 0 where
  pub ip : Str
  pub router_mac : Str

pub record TablePhysicalSwitch : Type 0 where
  pub gateway_group : Bool
  pub group_member : Bool

-- What go_vtep/locator.go calls: the tables of locators, encapsulations and physical switches, by the
-- name of a chassis. A write to `rmac_map` is of one entry.
pub record Locatordb (W : Type 0) : Type 0 where
  pub encap_get_by_uuid : W → Str → Option TableEncap
  pub physical_switch_get_by_index : W → Str → Option TablePhysicalSwitch
  pub locator_get_by_index : W → Str → Option TableLocator
  pub locator_get : W → List TableLocator
  pub locator_add : TableLocator → W → Error × W
  pub locator_del_by_index : Str → W → Error × W
  pub locator_set_route_mac : Str → Str → W → Error × W
  pub locator_set_ipaddr : Str → List Str → W → Error × W
  pub locator_update_rmac_map_setkey : Str → Str × Str → W → Error × W
  pub locator_update_rmac_map_delkey : Str → Str × Str → W → Error × W

the_one : List Str → Option Str
the_one (name ∷ []) = some name
the_one _ = none

-- `getVrfFromLR` (go_vtep/logical_router.go): the one VRF of a logical router.
unfoldable pub get_vrf_from_lr : {W : Type 0} → Vtepdb W → Str → W → Option Str
unfolding the_one
get_vrf_from_lr vtepdb lr w = the_one (vtepdb.vrf_get w lr)
