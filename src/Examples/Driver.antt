-- ===== src/Examples/Driver.antt =====
-- Small configuration databases, at which the theorems on the objects of driver/uninos apply.
use govtep.Base.{
  ℕ, suc, ◌≡◌, refl, sym, subst, Bool, true, false, Option, none, some, List, [], ◌∷◌, ◌++◌, arith,
  Str, str, str_eq, str_eq_iff, All, Error, errorf,
}
use govtep.Uninos.Ports.{L2portObj, Portdb, create_l2port}
use govtep.Uninos.Ports.Bridges.{create_l2port_replaces}
use govtep.Uninos.Forwarding.{
  NeighbourAttr, Forwardingdb, add_neighbour_attr, neighbour_macaddr, neighbour_out_port,
}
use govtep.Uninos.Forwarding.Neighbours.{has_two, is_string, add_neighbour_attr_runs}
use govtep.Uninos.StaticRoute.{
  RouteObj, StaticRouteRow, Routedb, create_route, remove_route, set_route_attr, route_nexthop,
}
use govtep.Uninos.StaticRoute.Replace.{RouteLaws, create_route_lem}

-- The world is the column `bridge_ports` of one bridge.
abbrev ports_db : Portdb (List Str)
ports_db = record {
  bridge_port_exists = λ w obj. false;
  bridge_port_add = λ obj w. (none, w);
  bridge_port_del_by_index = λ obj w. (none, w);
  bridge_port_set_tag_mode = λ obj mode w. (none, w);
  interface_add = λ name w. ((str "if" ++ name, none), w);
  interface_exists = λ w name. true;
  interface_del_by_index = λ name w. (none, w);
  interface_update_vrf_addvalue = λ name vrf w. (none, w);
  interface_update_vrf_delvalue = λ name vrf w. (none, w);
  bridge_set_bridge_ports = λ bridge uuid w. (none, uuid ∷ []);
  bridge_get_by_index = λ w bridge. some (str "b1");
  vrf_get_by_index = λ w vrf. none;
  tunnel_get_by_index = λ w tunnel. none;
  vrf_set_tunnel = λ vrf uuid w. (none, w);
  bridge_update_vxlan_tunnel_addvalue = λ bridge uuid w. (none, w);
  no_bridge = errorf "NotFound";
}

abbrev second_port : L2portObj
second_port = record { name = str "ep2"; bridge_name = str "Bd7" }

create_l2port_replaces_example :
    (create_l2port ports_db second_port (str "ifep1" ∷ [])).1 ≡ str "ifep2" ∷ []
create_l2port_replaces_example =
    create_l2port_replaces ports_db (λ w bridge. w) (λ bridge uuid w. refl) second_port
      (str "ifep2") (str "ifep1" ∷ []) refl refl refl

-- The world counts the writes.
abbrev count : ℕ → Error × ℕ
count w = (none, suc w)

abbrev neighbours_db : Forwardingdb ℕ
unfolding str_eq
neighbours_db = record {
  fdb_exists = λ w obj. true;
  fdb_add = λ obj. count;
  fdb_del_by_index = λ obj. count;
  fdb_set_field = λ obj field. count;
  neighbor_exists = λ w ip. true;
  neighbor_add = λ ip. count;
  neighbor_del_by_index = λ ip. count;
  neighbor_set_field = λ ip field. count;
  bridge_exists = λ w bridge. str_eq bridge (str "Bd7");
  tunnel_exists = λ w name. true;
  tunnel_add = λ obj. count;
  tunnel_del_by_index = λ name. count;
  tunnel_set_src_ip = λ name ips. count;
  tunnel_set_rmac_map = λ name m. count;
}

only_bd7 :
    (w : ℕ) (bridge : Str) → neighbours_db.bridge_exists w bridge ≡ true → has_two bridge ≡ true
unfolding neighbours_db has_two
only_bd7 w bridge h = subst (λ b. has_two b ≡ true) (sym ((str_eq_iff bridge (str "Bd7")).0 h)) refl

abbrev neighbour_attrs : List NeighbourAttr
neighbour_attrs =
    neighbour_out_port (some (str "Bd7")) ∷ neighbour_macaddr (some (str "00:00:00:00:00:01")) ∷ []

add_neighbour_attr_runs_example :
    (w1 : ℕ) × (add_neighbour_attr neighbours_db (str "10.0.0.2") neighbour_attrs 0 ≡ some w1)
add_neighbour_attr_runs_example =
    add_neighbour_attr_runs neighbours_db only_bd7 (str "10.0.0.2") neighbour_attrs 0 strings
  where
    strings : All (λ attr. is_string attr ≡ true) neighbour_attrs
    strings = unfold is_string in (refl, (refl, tt))

-- The world is the one static route, if there is one.
first_or : Option StaticRouteRow → Bool
first_or none = false
first_or (some _) = true

with_nexthop : List (Str × Str) → Option StaticRouteRow → Option StaticRouteRow
with_nexthop nexthop none = none
with_nexthop nexthop (some row) = some (record row { nexthop = nexthop })

abbrev routes_db : Routedb (Option StaticRouteRow)
unfolding first_or with_nexthop
routes_db = record {
  static_route_exists = λ w vrf ip. first_or w;
  static_route_get = λ w vrf ip. str "r1" ∷ [];
  vrf_update_add_route = λ vrf row w. (none, some row);
  vrf_update_route_delvalue = λ vrf uuid w. (none, none);
  static_route_set_nexthop = λ uuid nexthop w. (none, with_nexthop nexthop w);
}

no_route : (w : Option StaticRouteRow) → first_or w ≡ false → none ≡ w
unfolding first_or
no_route none h = refl
no_route (some row) h = ground (arith, h)

routes_laws : RouteLaws routes_db (λ row w. str "r1")
unfolding routes_db with_nexthop
routes_laws = record {
  get-added = λ row w h. refl;
  set-added = λ row nexthop w. refl;
  del-added = λ row w h. no_route w h;
}

abbrev default_route : RouteObj
default_route = record { vrf = str "Vrf7"; ip_prefix = str "0.0.0.0/0"; nexthop = str "10.0.0.1" }

create_route_example :
    ((set_route_attr routes_db default_route
        (route_nexthop (some (str "10.0.0.2")) ∷ [])
        (create_route routes_db default_route none).1).1
      ≡ (create_route routes_db (record default_route { nexthop = str "10.0.0.2" }) none).1)
    × ((remove_route routes_db default_route (create_route routes_db default_route none).1).1
        ≡ none)
create_route_example =
    create_route_lem routes_db (λ row w. str "r1") routes_laws default_route (str "10.0.0.2") none
      free
  where
    free : routes_db.static_route_exists none default_route.vrf default_route.ip_prefix ≡ false
    free = unfold routes_db first_or in refl
