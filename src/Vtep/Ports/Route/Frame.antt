-- ===== src/Vtep/Ports/Route/Frame.antt =====
-- What the creation of a route does not change.
use govtep.Base.{◌≡◌, refl, ◌∙◌, Option, none, some, Str, Error}
use govtep.Vtep.Ports.Databases.{TableRoute, Portdb}
use govtep.Vtep.Ports.Route.{
  Route, table_route, updated_routes, create_unless, create_in, route_create,
}

module _ {W O : Type 0} (db : Portdb W) (nh : W → W) (obs : W → O)
    (added : (vrf : Str) (row : TableRoute) (w : W)
      → obs (db.vrf_update_add_route vrf row w).1 ≡ obs w)
    (updated : (w : W) → obs (nh w) ≡ obs w) where
  updated_routes-frame : (r : Error × W) → obs (updated_routes db nh r).1 ≡ obs r.1
  unfolding updated_routes
  updated_routes-frame (none, w) = updated w
  updated_routes-frame (some e, w) = refl

  create_unless-frame :
      (o : Option TableRoute) (rt : Route) (w : W) → obs (create_unless db nh o rt w).1 ≡ obs w
  unfolding create_unless
  create_unless-frame (some row) rt w = refl
  create_unless-frame none rt w = updated_routes-frame _ ∙ added rt.vrf (table_route rt) w

  create_in-frame : (o : Option Str) (rt : Route) (w : W) → obs (create_in db nh o rt w).1 ≡ obs w
  unfolding create_in
  create_in-frame none rt w = refl
  create_in-frame (some name) rt w =
      create_unless-frame (db.route_get_by_index w rt.vrf rt.ip_prefix) rt w

  pub route_create-frame : (rt : Route) (w : W) → obs (route_create db nh rt w).1 ≡ obs w
  unfolding route_create
  route_create-frame rt w = create_in-frame (db.vrf_get_by_index w rt.vrf) rt w
