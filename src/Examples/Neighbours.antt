-- ===== src/Examples/Neighbours.antt =====
-- A remote port over a database of neighbours.
use govtep.Vtep.Ports.Neighbour.Created.{
  place_of, place, is_there, has_l3port, else_at, else_at-found, else_at-other, NeighbourLaws,
}
use govtep.Vtep.Diff.{member}
use govtep.Base.{
  ◌≡◌, refl, sym, ap, ap₂, ◌∙◌, Bool, true, false, ◌&&◌, Option, none, some, List, [], ◌∷◌, arith,
  if◌then◌else◌, Str, str, str_eq, str_eq_iff,
}
use govtep.Vtep.Ports.Databases.{TableRemoteNeigh, TableL3port, Portdb}
use govtep.Vtep.Ports.Info.{PortInfo, no_port}
use govtep.Vtep.Ports.Generate.{port_gen_rneigh_set}
use govtep.Vtep.Ports.Generate.Neighbours.{remote_neigh_create-port_gen_rneigh_set}
use govtep.Vtep.Ports.Neighbour.{RemoteNeigh, remote_neigh_create}

abbrev Neighbours : Type 0
Neighbours = List TableRemoteNeigh

lookup_row : Neighbours → Str → Str → Option TableRemoteNeigh
lookup_row [] ip mac = none
lookup_row (row ∷ w) ip mac =
    if str_eq row.ipaddr ip && str_eq row.mac mac then some row else lookup_row w ip mac

-- Address and MAC are an index.
add_unless : Option TableRemoteNeigh → TableRemoteNeigh → Neighbours → Neighbours
add_unless none row w = row ∷ w
add_unless (some _) row w = w

abbrev router_port : TableL3port
router_port = record {
  uuid = str "p3";
  name = str "Bd5";
  vrf = str "Vrf6";
  ipv4addr = [];
  ipv6addr = [];
  vlantag = [];
  peerport = [];
  peertype = [];
  logical_port = str "lrp1";
  phyparent_port = [];
  type = [];
  neighbour = [];
}

abbrev neighbours : Portdb Neighbours
neighbours = record {
  bridge_domain_exists = λ w bd. true;
  vrf_get_by_index = λ w name. some name;
  route_get_by_index = λ w vrf prefix. none;
  route_get = λ w locator. [];
  route_set_nexthop = λ uuid nh w. (none, w);
  vrf_update_add_route = λ vrf row w. (none, w);
  vrf_update_route_delvalue = λ vrf uuids w. (none, w);
  remote_fdb_get_by_index = λ w bd mac. none;
  bridge_domain_update_add_unicastfdb = λ bd row w. (none, w);
  bridge_domain_update_unicastfdb_delvalue = λ bd uuids w. (none, w);
  remote_neigh_get_by_index = lookup_row;
  remote_neigh_get_by_uuid = λ w uuid. none;
  l3port_update_add_neighbour =
      λ name row w. (none, add_unless (lookup_row w row.ipaddr row.mac) row w);
  l3port_update_neighbour_delvalue = λ name uuids w. (none, w);
  l2port_get_by_index1 = λ w name. none;
  l2port_get_by_index = λ w lp. none;
  bridge_domain_update_add_l2ports = λ bd row w. (none, w);
  bridge_domain_update_l2ports_delvalue = λ bd uuids w. (none, w);
  l3port_get_by_index1 = λ w name. if str_eq name (str "Bd5") then some router_port else none;
  l3port_get_by_index = λ w lp. none;
  vrf_update_add_l3ports = λ vrf row w. (none, w);
  vrf_update_l3ports_delvalue = λ vrf uuids w. (none, w);
  locator_get_by_uuid = λ w uuid. some (str "2.2.2.2" ∷ []);
  auto_gateway_conf_get_by_index = λ w vrf. none;
  auto_gateway_conf_get = λ w bd vlan. [];
  auto_gateway_conf_set = λ vrf row w. (none, w);
}

at_same :
    (row : TableRemoteNeigh) (ip mac : Str) (w : Neighbours)
    → (str_eq row.ipaddr ip && str_eq row.mac mac) ≡ true
    → lookup_row w ip mac ≡ lookup_row w row.ipaddr row.mac
at_same row ip mac w meant =
    let same_ip : row.ipaddr ≡ ip = (str_eq_iff row.ipaddr ip).0 (ground (arith, meant)) in
    let same_mac : row.mac ≡ mac = (str_eq_iff row.mac mac).0 (ground (arith, meant)) in
    ap₂ (lookup_row w) (sym same_ip) (sym same_mac)

row_added :
    (o : Option TableRemoteNeigh) (row : TableRemoteNeigh) (ip mac : Str) (w : Neighbours)
    → lookup_row w row.ipaddr row.mac ≡ o
    → place_of (lookup_row (add_unless o row w) ip mac)
      ≡ else_at
          (place_of (lookup_row w ip mac))
          (str_eq row.ipaddr ip && str_eq row.mac mac)
          (row.out_l3port, row.remote_locator)
unfolding add_unless lookup_row place_of else_at
row_added (some old) row ip mac w e = by_meaning (str_eq row.ipaddr ip && str_eq row.mac mac) refl
  where
    by_meaning :
        (meant : Bool)
        → (str_eq row.ipaddr ip && str_eq row.mac mac) ≡ meant
        → place_of (lookup_row w ip mac)
          ≡ else_at (place_of (lookup_row w ip mac)) meant (row.out_l3port, row.remote_locator)
    by_meaning true m =
        else_at-found (place_of (lookup_row w ip mac)) (old.out_l3port, old.remote_locator) true
          (row.out_l3port, row.remote_locator) (ap place_of (at_same row ip mac w m ∙ e))
    by_meaning false m =
        else_at-other (place_of (lookup_row w ip mac)) (row.out_l3port, row.remote_locator)
row_added none row ip mac w e = by_meaning (str_eq row.ipaddr ip && str_eq row.mac mac) refl
  where
    by_meaning :
        (meant : Bool)
        → (str_eq row.ipaddr ip && str_eq row.mac mac) ≡ meant
        → place_of (if meant then some row else lookup_row w ip mac)
          ≡ else_at (place_of (lookup_row w ip mac)) meant (row.out_l3port, row.remote_locator)
    by_meaning true m =
        ap (λ o. else_at (place_of o) true (row.out_l3port, row.remote_locator))
          (sym (at_same row ip mac w m ∙ e))
    by_meaning false m =
        else_at-other (place_of (lookup_row w ip mac)) (row.out_l3port, row.remote_locator)

neighbours_laws : NeighbourLaws neighbours (λ w. w)
unfolding place has_l3port
neighbours_laws = record {
  added = λ port ip mac row w there. row_added (lookup_row w row.ipaddr row.mac) row ip mac w refl;
  added_port = λ port name row w. refl;
  route_neighbour = λ ip mac vrf row w. refl;
  route_port = λ name vrf row w. refl;
  nexthops_neighbour = λ ip mac w. refl;
  nexthops_port = λ name w. refl;
}

abbrev remote_router_port : PortInfo
remote_router_port = record no_port {
  irb = str "Bd5";
  mac = str "fa:16:3e:00:00:01" ∷ [];
  ipv4addr = str "10.0.0.4" ∷ [];
  ipv6addr = str "fd00::4" ∷ [];
  locator = str "l2";
}

remote_neigh_create-port_gen_rneigh_set_example :
    (rns : List RemoteNeigh) × (port_gen_rneigh_set remote_router_port ≡ some rns)
    × (place neighbours
          (remote_neigh_create neighbours (λ w. w) rns []).1
          (str "fd00::4")
          (str "fa:16:3e:00:00:01")
        ≡ else_at
            (place neighbours [] (str "fd00::4") (str "fa:16:3e:00:00:01"))
            (member (str "fd00::4") (str "10.0.0.4" ∷ [])
              && str_eq (str "fa:16:3e:00:00:01") (str "fa:16:3e:00:00:01"))
            (str "Bd5", str "l2"))
remote_neigh_create-port_gen_rneigh_set_example =
    remote_neigh_create-port_gen_rneigh_set neighbours (λ w. w) neighbours_laws remote_router_port
      (str "fa:16:3e:00:00:01") (str "fd00::4") (str "fa:16:3e:00:00:01") [] [] refl
      (unfold has_l3port is_there str_eq in refl)
