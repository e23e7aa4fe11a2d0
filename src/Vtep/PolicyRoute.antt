-- ===== src/Vtep/PolicyRoute.antt =====
-- go_vtep/policy_based_route.go: adding and removing a policy based route, and the update of the
-- nexthop groups that follows a change of the routes. Logging is left out.
pub mod Nexthops
pub mod Index
use govtep.Base.{
  Option, none, some, List, [], ◌∷◌, ◌++◌, map, if◌then◌else◌, Str, str, str_eq, Error, for_each,
  errorf,
}
use govtep.Golang.Int.{ℤ}
use govtep.Vtep.Databases.{TablePolicyBasedRoute, PolicyBasedRouteIndex, TableLocator, Vtepdb}
use govtep.Vtep.Diff.{ListOp, member, diff_ops, insert_op, delete_op, keep_op}

pub record PolicyBasedRoute : Type 0 where
  pub type : Str
  pub vrf : Str
  pub ip : Str
  pub port : ℤ
  pub protocol : Str
  pub logical_ips : List Str

first_local : List TableLocator → List Str
first_local [] = []
first_local (row ∷ rows) =
    if row.local_locator then map (λ e. e.0) row.rmac_map else first_local rows

-- A protocol that is the empty string counts as none.
protocol_or : Str → Str → Str
protocol_or [] ignore = ignore
protocol_or (c ∷ s) ignore = c ∷ s

module _ {W : Type 0} (vtepdb : Vtepdb W) where
  -- `getNexthopForLogicalIP`; its error has no use but the test.
  unfoldable pub nexthop_for_logical_ip : Str → Str → W → Option Str
  nexthop_for_logical_ip ip vrf w = vtepdb.route_get_by_index w (ip ++ str "/32") vrf

  -- `getNexthopGroupRemote`
  nexthop_group_remote : W → List Str
  unfolding first_local
  nexthop_group_remote w = first_local (vtepdb.locator_get w)

  add_nexthop : Option Str → List Str → List Str
  unfolding member
  add_nexthop none group = group
  add_nexthop (some nh) group = if member nh group then group else group ++ (nh ∷ [])

  -- `for _, ip := range logicalIps { … }`: the nexthops found so far, and those of the addresses.
  pub nexthops_for : List Str → Str → W → List Str → List Str
  unfolding nexthop_for_logical_ip add_nexthop
  nexthops_for [] vrf w group = group
  nexthops_for (ip ∷ ips) vrf w group =
      nexthops_for ips vrf w (add_nexthop (nexthop_for_logical_ip ip vrf w) group)

  pub apply_nexthop_op : Str → Str × ListOp → W → W
  apply_nexthop_op uuid (nh, insert_op) w =
      (vtepdb.policy_based_route_update_nh_group_addvalue uuid (nh ∷ []) w).1
  apply_nexthop_op uuid (nh, delete_op) w =
      (vtepdb.policy_based_route_update_nh_group_delvalue uuid (nh ∷ []) w).1
  apply_nexthop_op uuid (nh, keep_op) w = w

  -- The body of the loop over the rows of `pbrNhUpdateCb`.
  pub update_row_nexthops : TablePolicyBasedRoute → W → W
  unfolding nexthops_for diff_ops apply_nexthop_op for_each
  update_row_nexthops row w =
      for_each (diff_ops row.nh_group (nexthops_for row.logical_ips row.vrf w []))
        (apply_nexthop_op row.uuid) w

  -- `pbrNhUpdateCb`
  pbr_nh_update_cb : W → W
  unfolding update_row_nexthops for_each
  pbr_nh_update_cb w = for_each (vtepdb.policy_based_route_get w) update_row_nexthops w

  -- The row that `policyBasedRouteAdd` writes.
  pub new_row : PolicyBasedRoute → W → TablePolicyBasedRoute
  unfolding protocol_or nexthop_group_remote nexthops_for
  new_row pbr w = record {
    uuid = [];
    type = pbr.type;
    ip = pbr.ip;
    port = pbr.port ∷ [];
    protocol = protocol_or pbr.protocol vtepdb.protocol_ignore ∷ [];
    vrf = pbr.vrf;
    nh_vrf = pbr.vrf;
    logical_ips = pbr.logical_ips;
    nh_group =
        if str_eq pbr.type vtepdb.type_snat
        then nexthop_group_remote w
        else nexthops_for pbr.logical_ips pbr.vrf w [];
  }

  -- `policyBasedRouteAdd`: an error of the write is taken for a route that exists already.
  pub policy_based_route_add : PolicyBasedRoute → W → Error × W
  unfolding new_row
  policy_based_route_add pbr w = (none, (vtepdb.vrf_update_add_pbr pbr.vrf (new_row pbr w) w).1)

  -- The index by which `policyBasedRouteDel` finds the row.
  pub row_index : PolicyBasedRoute → PolicyBasedRouteIndex
  unfolding protocol_or
  row_index pbr = record {
    type = pbr.type;
    ip = pbr.ip;
    port = pbr.port;
    vrf = pbr.vrf;
    protocol = protocol_or pbr.protocol vtepdb.protocol_ignore;
  }

  delete_found : Str → Option Str → W → Error × W
  delete_found vrf none w = (some (errorf "PBR not found"), w)
  delete_found vrf (some uuid) w = vtepdb.vrf_update_pbr_delvalue vrf uuid w

  -- `policyBasedRouteDel`
  pub policy_based_route_del : PolicyBasedRoute → W → Error × W
  unfolding row_index delete_found
  policy_based_route_del pbr w =
      delete_found pbr.vrf (vtepdb.policy_based_route_get_by_index w (row_index pbr)) w
