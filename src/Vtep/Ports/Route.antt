-- ===== src/Vtep/Ports/Route.antt =====
-- go_vtep/route.go: the routes of VRFs in the VTEP database. Logging is left out. `pbr_nh_update` is
-- `pbrNhUpdateCb` (Vtep.PolicyRoute) over the same world.
pub mod Frame
use govtep.Base.{
  Option, none, some, List, [], ◌∷◌, if◌then◌else◌, Str, str, str_eq, Error, for_each, errorf,
}
use govtep.Vtep.Ports.Databases.{TableRoute, Portdb}

pub record Route : Type 0 where
  pub vrf : Str
  pub ip_prefix : Str
  pub nexthop : Str
  pub nh_vrf : Str
  pub output_port : Str
  pub remote_locator : Str
  pub policy : Str

-- `RoutePolicyDefault`
abbrev pub route_policy_default : Str
route_policy_default = str "dst-ip"

table_route : Route → TableRoute
table_route rt = record {
  uuid = [];
  vrf = rt.vrf;
  ip_prefix = rt.ip_prefix;
  nexthop = rt.nexthop;
  nh_vrf = rt.nh_vrf;
  output_port = rt.output_port;
  remote_locator = rt.remote_locator;
  policy = rt.policy;
}

module _ {W : Type 0} (db : Portdb W) (pbr_nh_update : W → W) where
  -- The nexthop groups follow a write that succeeds.
  updated_routes : Error × W → Error × W
  updated_routes (none, w) = (none, pbr_nh_update w)
  updated_routes (some e, w) = (some e, w)

  create_unless : Option TableRoute → Route → W → Error × W
  unfolding table_route updated_routes
  create_unless (some row) rt w = (none, w)
  create_unless none rt w = updated_routes (db.vrf_update_add_route rt.vrf (table_route rt) w)

  create_in : Option Str → Route → W → Error × W
  unfolding create_unless
  create_in none rt w = (some (errorf "Vrf %s not found when create route"), w)
  create_in (some name) rt w = create_unless (db.route_get_by_index w rt.vrf rt.ip_prefix) rt w

  -- `routeCreate`
  pub route_create : Route → W → Error × W
  unfolding create_in
  route_create rt w = create_in (db.vrf_get_by_index w rt.vrf) rt w

  remove_found : Option TableRoute → Route → W → Error × W
  unfolding updated_routes
  remove_found none rt w = (some (errorf "Route %+v not found"), w)
  remove_found (some row) rt w =
      updated_routes (db.vrf_update_route_delvalue rt.vrf (row.uuid ∷ []) w)

  -- `routeRemove`
  pub route_remove : Route → W → Error × W
  unfolding remove_found
  route_remove rt w = elim (db.vrf_get_by_index w rt.vrf) [
    | none ↦ (some (errorf "Vrf %s not found when remove route"), w)
    | some name ↦ remove_found (db.route_get_by_index w rt.vrf rt.ip_prefix) rt w
  ]

  -- `routeSetCreate`
  pub route_set_create : List Route → W → Error × W
  unfolding route_create for_each
  route_set_create routes w = (none, for_each routes (λ rt w. (route_create rt w).1) w)

  -- `routeSetRemove`
  pub route_set_remove : List Route → W → Error × W
  unfolding route_remove for_each
  route_set_remove routes w = (none, for_each routes (λ rt w. (route_remove rt w).1) w)

module _ {W : Type 0} (db : Portdb W) where
  -- The error is that of the last write.
  nh_updates : List TableRoute → Str → Error × W → Error × W
  nh_updates [] nh (e, w) = (e, w)
  nh_updates (row ∷ rows) nh (e, w) =
      nh_updates rows nh
        (if str_eq row.nexthop nh then (e, w) else db.route_set_nexthop row.uuid nh w)

  -- `routeNhUpdateForLocator`
  pub route_nh_update_for_locator : Str → Str → W → Error × W
  unfolding nh_updates
  route_nh_update_for_locator locator nh w = nh_updates (db.route_get w locator) nh (none, w)
