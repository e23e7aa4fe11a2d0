-- ===== src/Vtep/Ports/Generate.antt =====
-- What a port binding asks for in the VTEP database: `portGenRfdbSet`, `portGenRneighSet` and
-- `portGenRouteSet` of go_vtep/port.go.
pub mod Neighbours
pub mod Prefixes
use govtep.Base.{Option, none, some, List, [], ◌∷◌, ◌++◌, Str, Error}
use govtep.Vtep.Ports.Address.{ip_to_cidr}
use govtep.Vtep.Ports.Route.{Route, route_policy_default}
use govtep.Vtep.Ports.Neighbour.{RemoteNeigh}
use govtep.Vtep.Ports.Fdb.{RemoteFdb}
use govtep.Vtep.Ports.Info.{PortInfo}

fdbs_for : Str → Str → List Str → List RemoteFdb
fdbs_for bd locator [] = []
fdbs_for bd locator (mac ∷ macs) =
    record { bridge = bd; mac = mac; remote_locator = locator } ∷ fdbs_for bd locator macs

-- `portGenRfdbSet`
pub port_gen_rfdb_set : PortInfo → List RemoteFdb
unfolding fdbs_for
port_gen_rfdb_set port = fdbs_for port.bd port.locator port.mac

pub neigh_at : PortInfo → Str → Str → RemoteNeigh
neigh_at port mac ip = record {
  out_l3port = port.irb;
  ipaddr = ip;
  mac = mac;
  remote_locator = port.locator;
}

-- A round indexes `port.Mac[0]`.
neigh_before : List Str → PortInfo → Str → Option (List RemoteNeigh) → Option (List RemoteNeigh)
unfolding neigh_at
neigh_before [] port ip rest = none
neigh_before (mac ∷ _) port ip none = none
neigh_before (mac ∷ _) port ip (some rest) = some (neigh_at port mac ip ∷ rest)

-- One of the two loops, over addresses.
neighs_for : PortInfo → List Str → Option (List RemoteNeigh)
unfolding neigh_before
neighs_for port [] = some []
neighs_for port (ip ∷ ips) = neigh_before port.mac port ip (neighs_for port ips)

append_neighs : Option (List RemoteNeigh) → Option (List RemoteNeigh) → Option (List RemoteNeigh)
append_neighs none second = none
append_neighs (some xs) none = none
append_neighs (some xs) (some ys) = some (xs ++ ys)

-- `portGenRneighSet`: both loops go over `port.Ipv4addr`.
unfoldable pub port_gen_rneigh_set : PortInfo → Option (List RemoteNeigh)
unfolding neighs_for append_neighs
port_gen_rneigh_set port =
    append_neighs (neighs_for port port.ipv4addr) (neighs_for port port.ipv4addr)

route_unless : Str × Error → PortInfo → List Route → List Route
route_unless (prefix, some e) port rest = rest
route_unless (prefix, none) port rest =
    record {
      vrf = port.vrf;
      ip_prefix = prefix;
      nexthop = [];
      nh_vrf = [];
      output_port = [];
      remote_locator = port.locator;
      policy = route_policy_default;
    }
    ∷ rest

routes_for : PortInfo → List Str → List Route
unfolding route_unless
routes_for port [] = []
routes_for port (ip ∷ ips) = route_unless (ip_to_cidr ip) port (routes_for port ips)

-- `portGenRouteSet`
pub port_gen_route_set : PortInfo → List Route
unfolding routes_for
port_gen_route_set port = routes_for port port.ipv4addr ++ routes_for port port.ipv6addr
