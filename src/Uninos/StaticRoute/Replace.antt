-- ===== src/Uninos/StaticRoute/Replace.antt =====
-- A route whose nexthop changes.
use govtep.Base.{
  ◌≡◌, sym, ap, ◌∙◌, false, none, some, List, [], ◌∷◌, if◌then◌else◌, Str, Error, for_each,
}
use govtep.Uninos.StaticRoute.{
  RouteObj, StaticRouteRow, route_nexthop, Routedb, nh_map, route_row, create_route, with_row,
  remove_route, set_nexthop, set_route_attr,
}

-- A server that takes the writes: a row that is added is the one of its VRF and prefix, and setting
-- its nexthops, or deleting it, is as if it had been added with them, or not at all.
pub record RouteLaws {W : Type 0} (db : Routedb W) (id_of : StaticRouteRow → W → Str) : Type 0 where
  pub get-added :
      (row : StaticRouteRow) (w : W)
      → db.static_route_exists w row.vrf row.ip ≡ false
      → db.static_route_get (db.vrf_update_add_route row.vrf row w).1 row.vrf row.ip
        ≡ id_of row w ∷ []
  pub set-added :
      (row : StaticRouteRow) (nexthop : List (Str × Str)) (w : W)
      → (db.static_route_set_nexthop
          (id_of row w)
          nexthop
          (db.vrf_update_add_route row.vrf row w).1).1
        ≡ (db.vrf_update_add_route row.vrf (record row { nexthop = nexthop }) w).1
  pub del-added :
      (row : StaticRouteRow) (w : W)
      → db.static_route_exists w row.vrf row.ip ≡ false
      → (db.vrf_update_route_delvalue row.vrf
          (id_of row w)
          (db.vrf_update_add_route row.vrf row w).1).1
        ≡ w

module _ {W : Type 0} (db : Routedb W) (id_of : StaticRouteRow → W → Str)
    (laws : RouteLaws db id_of) where
  created :
      (obj : RouteObj) (w : W)
      → db.static_route_exists w obj.vrf obj.ip_prefix ≡ false
      → create_route db obj w ≡ db.vrf_update_add_route obj.vrf (route_row obj) w
  unfolding create_route
  created obj w free =
      ap (λ b. if b then (none, w) else db.vrf_update_add_route obj.vrf (route_row obj) w) free

  with_row_added :
      (obj : RouteObj) (next : Str → W → Error × W) (w : W)
      → db.static_route_exists w obj.vrf obj.ip_prefix ≡ false
      → with_row db
          (db.static_route_get (create_route db obj w).1 obj.vrf obj.ip_prefix)
          next
          (create_route db obj w).1
        ≡ next (id_of (route_row obj) w) (db.vrf_update_add_route obj.vrf (route_row obj) w).1
  unfolding route_row with_row
  with_row_added obj next w free =
      ap (λ r. with_row db (db.static_route_get r.1 obj.vrf obj.ip_prefix) next r.1)
        (created obj w free)
      ∙ ap (λ rows. with_row db rows next (db.vrf_update_add_route obj.vrf (route_row obj) w).1)
          (laws.get-added (route_row obj) w free)

  -- Where the server takes the writes, on a route that is not there, a creation followed by a new
  -- nexthop leaves the database as a creation with that nexthop does, and a creation followed by
  -- the removal leaves it as it was.
  pub create_route_lem :
      (obj : RouteObj) (nh : Str) (w : W)
      → db.static_route_exists w obj.vrf obj.ip_prefix ≡ false
      → ((set_route_attr db obj (route_nexthop (some nh) ∷ []) (create_route db obj w).1).1
          ≡ (create_route db (record obj { nexthop = nh }) w).1)
        × ((remove_route db obj (create_route db obj w).1).1 ≡ w)
  unfolding set_route_attr remove_route set_nexthop for_each route_row
  create_route_lem obj nh w free = (
    ap (λ r. r.1)
          (with_row_added obj
            (λ uuid w.
              (none, for_each (route_nexthop (some nh) ∷ []) (set_nexthop db obj.vrf uuid) w))
            w free)
        ∙ laws.set-added (route_row obj) (nh_map obj.vrf nh) w
        ∙ ap (λ r. r.1) (sym (created (record obj { nexthop = nh }) w free)),
    ap (λ r. r.1) (with_row_added obj (db.vrf_update_route_delvalue obj.vrf) w free)
        ∙ laws.del-added (route_row obj) w free,
  )
