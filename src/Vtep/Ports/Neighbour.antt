-- ===== src/Vtep/Ports/Neighbour.antt =====
-- go_vtep/neighbour.go: the remote neighbours of an L3 port, each with a host route in the port's
-- VRF. Logging is left out. No handler here returns an error: one that fails leaves out the
-- neighbour.
pub mod Frame
pub mod Created
use govtep.Base.{Option, none, some, List, [], ◌∷◌, ◌++◌, Str, str, Error, for_each}
use govtep.Vtep.Ports.Databases.{TableRemoteNeigh, TableL3port, Portdb}
use govtep.Vtep.Ports.Route.{Route, route_policy_default, route_create, route_remove}

pub record RemoteNeigh : Type 0 where
  pub out_l3port : Str
  pub ipaddr : Str
  pub mac : Str
  pub remote_locator : Str

table_neigh : RemoteNeigh → TableRemoteNeigh
table_neigh rn = record {
  uuid = [];
  out_l3port = rn.out_l3port;
  ipaddr = rn.ipaddr;
  mac = rn.mac;
  remote_locator = rn.remote_locator;
}

-- `locator first ip as route nexthop for now`
first_ip : List Str → Str
first_ip [] = []
first_ip (ip ∷ ips) = ip

host_route : RemoteNeigh → TableL3port → Str → List Str → Route
unfolding first_ip
host_route rn l3port vrf ips = record {
  vrf = vrf;
  ip_prefix = rn.ipaddr ++ str "/32";
  nexthop = first_ip ips;
  nh_vrf = vrf;
  output_port = l3port.name;
  remote_locator = rn.remote_locator;
  policy = route_policy_default;
}

module _ {W : Type 0} (db : Portdb W) (pbr_nh_update : W → W) where
  route_for : Option Str → Option (List Str) → RemoteNeigh → TableL3port → W → W
  unfolding host_route
  route_for none ips rn l3port w = w
  route_for (some vrf) none rn l3port w = w
  route_for (some vrf) (some ips) rn l3port w =
      (route_create db pbr_nh_update (host_route rn l3port vrf ips) w).1

  -- In symmetric forwarding a neighbour has a static host route.
  add_host_route : RemoteNeigh → TableL3port → W → W
  unfolding route_for
  add_host_route rn l3port w =
      route_for (db.vrf_get_by_index w l3port.vrf) (db.locator_get_by_uuid w rn.remote_locator) rn
        l3port w

  pub neigh_added : RemoteNeigh → TableL3port → Error × W → W
  unfolding add_host_route
  neigh_added rn l3port (some e, w) = w
  neigh_added rn l3port (none, w) = add_host_route rn l3port w

  add_neigh : Option TableL3port → RemoteNeigh → W → W
  unfolding table_neigh neigh_added
  add_neigh none rn w = w
  add_neigh (some l3port) rn w =
      neigh_added rn l3port (db.l3port_update_add_neighbour rn.out_l3port (table_neigh rn) w)

  neigh_unless : Option TableRemoteNeigh → RemoteNeigh → W → W
  unfolding add_neigh
  neigh_unless (some row) rn w = w
  neigh_unless none rn w = add_neigh (db.l3port_get_by_index1 w rn.out_l3port) rn w

  pub create_neigh : RemoteNeigh → W → W
  unfolding neigh_unless
  create_neigh rn w = neigh_unless (db.remote_neigh_get_by_index w rn.ipaddr rn.mac) rn w

  -- `remoteNeighCreate`
  unfoldable pub remote_neigh_create : List RemoteNeigh → W → Error × W
  unfolding create_neigh for_each
  remote_neigh_create rns w = (none, for_each rns create_neigh w)

  -- Only the VRF and the prefix of a route matter to its removal.
  neigh_removed : RemoteNeigh → TableL3port → Error × W → W
  neigh_removed rn l3port (some e, w) = w
  neigh_removed rn l3port (none, w) =
      let rt : Route = record {
        vrf = l3port.vrf;
        ip_prefix = rn.ipaddr ++ str "/32";
        nexthop = [];
        nh_vrf = [];
        output_port = [];
        remote_locator = [];
        policy = [];
      } in
      (route_remove db pbr_nh_update rt w).1

  del_neigh : Option TableL3port → Str → RemoteNeigh → W → W
  unfolding neigh_removed
  del_neigh none uuid rn w = w
  del_neigh (some l3port) uuid rn w =
      neigh_removed rn l3port (db.l3port_update_neighbour_delvalue rn.out_l3port (uuid ∷ []) w)

  remove_neigh : RemoteNeigh → W → W
  unfolding del_neigh
  remove_neigh rn w = elim (db.remote_neigh_get_by_index w rn.ipaddr rn.mac) [
    | none ↦ w
    | some row ↦ del_neigh (db.l3port_get_by_index1 w rn.out_l3port) row.uuid rn w
  ]

  -- `remoteNeighRemove`
  pub remote_neigh_remove : List RemoteNeigh → W → Error × W
  unfolding remove_neigh for_each
  remote_neigh_remove rns w = (none, for_each rns remove_neigh w)
