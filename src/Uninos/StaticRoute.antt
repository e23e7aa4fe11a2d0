-- ===== src/Uninos/StaticRoute.antt =====
-- driver/uninos/unos_route.go: static routes of the switch's configuration database. The test
-- whether the VRF exists only logs, so it is left out. `none` as an attribute's value is one that
-- is no string.
pub mod Replace
use govtep.Base.{
  Bool, Option, none, some, List, [], ◌∷◌, ◌++◌, if◌then◌else◌, Str, str, Error, for_each, errorf,
}

pub record RouteObj : Type 0 where
  pub vrf : Str
  pub ip_prefix : Str
  pub nexthop : Str

pub record StaticRouteRow : Type 0 where
  pub vrf : Str
  pub ip : Str
  pub nexthop : List (Str × Str)

pub data RouteAttr : Type 0 where
  route_nexthop : Option Str → RouteAttr
  route_attr : RouteAttr

-- Tables of lib/odbapi/unosconfig; a new row is of the flag for VXLAN.
pub record Routedb (W : Type 0) : Type 0 where
  pub static_route_exists : W → Str → Str → Bool
  -- `StaticRouteGet` under conditions on VRF and prefix: the rows' identifiers
  pub static_route_get : W → Str → Str → List Str
  pub vrf_update_add_route : Str → StaticRouteRow → W → Error × W
  pub vrf_update_route_delvalue : Str → Str → W → Error × W
  pub static_route_set_nexthop : Str → List (Str × Str) → W → Error × W

-- `nhMap`
unfoldable pub nh_map : Str → Str → List (Str × Str)
nh_map vrf nh =
    (
      str "vrfname:" ++ (vrf ++ (str ",ip:" ++ (nh ++ (str ",port:" ++ (str "Bd" ++ vrf))))),
      str "label:,onlink:,color:",
    )
    ∷ []

unfoldable pub route_row : RouteObj → StaticRouteRow
unfolding nh_map
route_row obj = record { vrf = obj.vrf; ip = obj.ip_prefix; nexthop = nh_map obj.vrf obj.nexthop }

module _ {W : Type 0} (db : Routedb W) where
  -- `CreateObject` of `routeAPI`
  unfoldable pub create_route : RouteObj → W → Error × W
  unfolding route_row
  create_route obj w =
      if db.static_route_exists w obj.vrf obj.ip_prefix
      then (none, w)
      else db.vrf_update_add_route obj.vrf (route_row obj) w

  -- The one row of a route.
  with_row : List Str → (Str → W → Error × W) → W → Error × W
  with_row (uuid ∷ []) next w = next uuid w
  with_row _ next w = (some (errorf "[Driver] Static route %+v not exist"), w)

  -- `RemoveObject` of `routeAPI`
  unfoldable pub remove_route : RouteObj → W → Error × W
  unfolding with_row
  remove_route obj w =
      with_row (db.static_route_get w obj.vrf obj.ip_prefix) (db.vrf_update_route_delvalue obj.vrf)
        w

  set_nexthop : Str → Str → RouteAttr → W → W
  unfolding nh_map
  set_nexthop vrf uuid (route_nexthop (some nh)) w =
      (db.static_route_set_nexthop uuid (nh_map vrf nh) w).1
  set_nexthop vrf uuid _ w = w

  -- `SetObjectAttr` of `routeAPI`, and `AddObjectAttr`, which does the same
  unfoldable pub set_route_attr : RouteObj → List RouteAttr → W → Error × W
  unfolding with_row set_nexthop for_each
  set_route_attr obj attrs w =
      with_row (db.static_route_get w obj.vrf obj.ip_prefix)
        (λ uuid w. (none, for_each attrs (set_nexthop obj.vrf uuid) w)) w
