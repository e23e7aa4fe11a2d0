-- ===== src/Vtep/Ports/Neighbour/Frame.antt =====
-- What the creation of remote neighbours does not change.
use govtep.Base.{◌≡◌, refl, ◌∙◌, Option, none, some, List, Str, Error, for_each-frame}
use govtep.Vtep.Ports.Databases.{TableRoute, TableRemoteNeigh, TableL3port, Portdb}
use govtep.Vtep.Ports.Route.Frame.{route_create-frame}
use govtep.Vtep.Ports.Neighbour.{
  RemoteNeigh, table_neigh, host_route, route_for, add_host_route, neigh_added, add_neigh,
  neigh_unless, create_neigh, remote_neigh_create,
}

module _ {W O : Type 0} (db : Portdb W) (nh : W → W) (obs : W → O)
    (added_route : (vrf : Str) (row : TableRoute) (w : W)
      → obs (db.vrf_update_add_route vrf row w).1 ≡ obs w)
    (updated : (w : W) → obs (nh w) ≡ obs w) where
  route_for-frame :
      (vrf : Option Str) (ips : Option (List Str)) (rn : RemoteNeigh) (port : TableL3port) (w : W)
      → obs (route_for db nh vrf ips rn port w) ≡ obs w
  unfolding route_for
  route_for-frame none ips rn port w = refl
  route_for-frame (some vrf) none rn port w = refl
  route_for-frame (some vrf) (some ips) rn port w =
      route_create-frame db nh obs added_route updated (host_route rn port vrf ips) w

  pub neigh_added-frame :
      (rn : RemoteNeigh) (port : TableL3port) (r : Error × W)
      → obs (neigh_added db nh rn port r) ≡ obs r.1
  unfolding neigh_added add_host_route
  neigh_added-frame rn port (some e, w) = refl
  neigh_added-frame rn port (none, w) =
      route_for-frame (db.vrf_get_by_index w port.vrf) (db.locator_get_by_uuid w rn.remote_locator)
        rn port w

module _ {W O : Type 0} (db : Portdb W) (nh : W → W) (obs : W → O)
    (added_route : (vrf : Str) (row : TableRoute) (w : W)
      → obs (db.vrf_update_add_route vrf row w).1 ≡ obs w)
    (updated : (w : W) → obs (nh w) ≡ obs w)
    (added : (port : Str) (row : TableRemoteNeigh) (w : W)
      → obs (db.l3port_update_add_neighbour port row w).1 ≡ obs w) where
  add_neigh-frame :
      (o : Option TableL3port) (rn : RemoteNeigh) (w : W) → obs (add_neigh db nh o rn w) ≡ obs w
  unfolding add_neigh
  add_neigh-frame none rn w = refl
  add_neigh-frame (some port) rn w =
      neigh_added-frame db nh obs added_route updated rn port _
      ∙ added rn.out_l3port (table_neigh rn) w

  neigh_unless-frame :
      (o : Option TableRemoteNeigh) (rn : RemoteNeigh) (w : W)
      → obs (neigh_unless db nh o rn w) ≡ obs w
  unfolding neigh_unless
  neigh_unless-frame (some row) rn w = refl
  neigh_unless-frame none rn w = add_neigh-frame (db.l3port_get_by_index1 w rn.out_l3port) rn w

  pub create_neigh-frame : (rn : RemoteNeigh) (w : W) → obs (create_neigh db nh rn w) ≡ obs w
  unfolding create_neigh
  create_neigh-frame rn w =
      neigh_unless-frame (db.remote_neigh_get_by_index w rn.ipaddr rn.mac) rn w

  pub remote_neigh_create-frame :
      (rns : List RemoteNeigh) (w : W) → obs (remote_neigh_create db nh rns w).1 ≡ obs w
  unfolding remote_neigh_create
  remote_neigh_create-frame rns w = for_each-frame obs rns (create_neigh db nh) w create_neigh-frame
