-- ===== src/Examples/Ports.antt =====
-- A database of MACs and one of port bindings, at which the theorems on ports apply.
use govtep.Golang.Binary.{format_binary}
use govtep.Vtep.Diff.{member, find, put}
use govtep.Vtep.Diff.Members.{Distinct}
use govtep.Vtep.Ports.Route.{Route}
use govtep.Vtep.Ports.Branches.{create_new_port}
use govtep.Vtep.Ports.Address.{address_parser}
use govtep.Base.{
  ◌-◌, ◌/◌, ◌^◌, ◌≡◌, refl, sym, ap, subst, ◌∙◌, ◌↔◌, inl, inr, Bool, true, false, not, ◌&&◌, ◌||◌,
  none, some, List, [], ◌∷◌, map, arith, if◌then◌else◌, Bool-cases, Str, str, str_eq, text_laws,
  ◌>>=◌,
}
use govtep.Vtep.Vnet.{TableDatapathBinding}
use govtep.Vtep.Ports.Fdb.Refinement.{has_mac, FdbLaws}
use govtep.Vtep.Ports.Databases.{
  TableRemoteFdb, TableL2port, Portdb, TablePortBinding, TableGatewayChassis, Bindingdb,
}
use govtep.Vtep.Ports.Info.{
  PortInfo, no_port, define_port_proc_branch, local, remote, lsp_ac_local, lsp_ac_remote,
}
use govtep.Vtep.Ports.Branches.Frame.{RemoteFrame}
use govtep.Vtep.Ports.Parser.{portbinding_parser}
use govtep.Vtep.Ports.State.{PortState, type_of, info_of, set_port}
use govtep.Vtep.Ports.Events.{
  old_addresses, portbinding_update_chassis, portbinding_update_mac, portbinding_notify_update,
  one_mac,
}
use govtep.Vtep.Ports.Events.Moved.{portbinding_update_chassis-stale}
use govtep.Vtep.Names.{bd_name_by_vni, logical_switch}
use govtep.Ovsdb.Rows.{insert}
use govtep.Vtep.Ports.Info.Table.{Meets, define_port_proc_branch_lem}
use govtep.Vtep.Ports.Belong.{is_belong}
use govtep.Vtep.Ports.Belong.Networks.{Octets, dotted, value, cidr, is_belong_lem, is_belong_double}
use govtep.Vtep.Ports.Generate.{port_gen_rneigh_set, port_gen_route_set}
use govtep.Vtep.Ports.Generate.Prefixes.{host_prefix, port_gen_route_set-prefixes}
use govtep.Vtep.Ports.Events.Cache.{Reach-IsConsistent, here, notified}
use govtep.Vtep.Ports.Events.Macs.{portbinding_update_mac_lem}

-- MACs of bridge domains; the identifier of a row is made of its MAC.
abbrev uuid_of : Str → Str
uuid_of mac = b'u' ∷ mac

has_row : Str → Str → List (Str × Str) → Bool
has_row bd mac [] = false
has_row bd mac ((b, m) ∷ rows) = (str_eq b bd && str_eq m mac) || has_row bd mac rows

remove_row : Str → Str → List (Str × Str) → List (Str × Str)
remove_row bd id [] = []
remove_row bd id ((b, m) ∷ rows) =
    let rest = remove_row bd id rows in
    if str_eq b bd && str_eq (uuid_of m) id then rest else (b, m) ∷ rest

remove_rows : Str → List Str → List (Str × Str) → List (Str × Str)
unfolding remove_row
remove_rows bd [] rows = rows
remove_rows bd (id ∷ uuids) rows = remove_rows bd uuids (remove_row bd id rows)

abbrev old_port : TableL2port
old_port = record {
  uuid = str "p1";
  name = str "eth1.5";
  bd = str "Bd5";
  vlantag = 5 ∷ [];
  peerport = [];
  peertype = [];
  logical_port = str "lp1";
  phyparent_port = str "eth1";
  type = [];
}

abbrev ports : Portdb (List (Str × Str))
ports = record {
  bridge_domain_exists = λ w bd. true;
  vrf_get_by_index = λ w name. some name;
  route_get_by_index = λ w vrf prefix. none;
  route_get = λ w locator. [];
  route_set_nexthop = λ uuid nh w. (none, w);
  vrf_update_add_route = λ vrf row w. (none, w);
  vrf_update_route_delvalue = λ vrf uuids w. (none, w);
  remote_fdb_get_by_index = λ w bd mac. if has_row bd mac w then some (uuid_of mac) else none;
  bridge_domain_update_add_unicastfdb = λ bd row w. (none, (row.bridge, row.mac) ∷ w);
  bridge_domain_update_unicastfdb_delvalue = λ bd uuids w. (none, remove_rows bd uuids w);
  remote_neigh_get_by_index = λ w ip mac. none;
  remote_neigh_get_by_uuid = λ w uuid. none;
  l3port_update_add_neighbour = λ name row w. (none, w);
  l3port_update_neighbour_delvalue = λ name uuids w. (none, w);
  l2port_get_by_index1 = λ w name. if str_eq name (str "eth1.5") then some old_port else none;
  l2port_get_by_index = λ w lp. none;
  bridge_domain_update_add_l2ports = λ bd row w. (none, w);
  bridge_domain_update_l2ports_delvalue = λ bd uuids w. (none, w);
  l3port_get_by_index1 = λ w name. none;
  l3port_get_by_index = λ w lp. none;
  vrf_update_add_l3ports = λ vrf row w. (none, w);
  vrf_update_l3ports_delvalue = λ vrf uuids w. (none, w);
  locator_get_by_uuid = λ w uuid. none;
  auto_gateway_conf_get_by_index = λ w vrf. none;
  auto_gateway_conf_get = λ w bd vlan. [];
  auto_gateway_conf_set = λ vrf row w. (none, w);
}

abbrev switch_datapath : TableDatapathBinding
switch_datapath = record {
  dp_uuid = str "d1";
  tunnel_key = 5;
  ls_name = some (str "ls1");
  lr_name = none;
}

abbrev remote_chassis : TableGatewayChassis
remote_chassis = record {
  chassis_uuid = str "c2";
  name = str "chassis-2";
  hardware_gateway_chassis = [];
}

abbrev bindings : Bindingdb (List (Str × Str))
bindings = record {
  datapath_binding_get_by_uuid = λ w uuid. some switch_datapath;
  port_binding_get_by_index1 = λ w lp. none;
  port_binding_get = λ w dp. [];
  port_binding_set_chassis = λ lp uuid w. (none, w);
  port_binding_update_chassis_delvalue = λ lp uuids w. (none, w);
  chassis_get_by_uuid = λ w uuid. some remote_chassis;
  chassis_get_by_index = λ w name. some remote_chassis;
  physical_switch_get_by_index = λ w name. none;
  locator_get_by_index = λ w chassis. some (str "l2");
  local_locator_get = λ w. [];
  logical_switch_get_by_index = λ w name. none;
  logical_switch_port_get_by_uuid = λ w uuid. none;
}

abbrev remote_row : TablePortBinding
remote_row = record {
  logical_port = str "lp1";
  datapath = str "d1";
  mac = str "fa:16:3e:00:00:01 10.0.0.4" ∷ [];
  nat_addresses = [];
  parent_port = [];
  type = [];
  tunnel_key = 7;
  tag = [];
  chassis = str "c2" ∷ [];
  options = [];
}

has_row-remove :
    (bd mac k : Str) (rows : List (Str × Str))
    → has_row bd k (remove_row bd (uuid_of mac) rows) ≡ (not (str_eq mac k) && has_row bd k rows)
unfolding has_row remove_row str_eq
has_row-remove bd mac k [] = ground arith
has_row-remove bd mac k ((b, m) ∷ rows) = grind (text_laws, has_row-remove bd mac k rows)

remove_none : (bd : Str) (rows : List (Str × Str)) → remove_row bd [] rows ≡ rows
unfolding remove_row str_eq
remove_none bd [] = refl
remove_none bd ((b, m) ∷ rows) = ground (arith, remove_none bd rows)

has_mac-row : (bd k : Str) (w : List (Str × Str)) → has_mac ports w bd k ≡ has_row bd k w
unfolding has_mac
has_mac-row bd k w = elim (Bool-cases (has_row bd k w)) [ inl e ↦ rw e refl | inr e ↦ rw e refl ]

found_mac :
    (b : Bool) (mac id : Str)
    → (if b then some (uuid_of mac) else none) ≡ some id
    → id ≡ uuid_of mac
found_mac true mac id e = ground (arith, e)
found_mac false mac id e = cc

mac_added :
    (bd : Str) (row : TableRemoteFdb) (k : Str) (w : List (Str × Str))
    → row.bridge ≡ bd
    → has_mac ports ((row.bridge, row.mac) ∷ w) bd k ≡ (str_eq row.mac k || has_mac ports w bd k)
unfolding has_row
mac_added bd row k w e =
    grind (text_laws, has_mac-row bd k ((row.bridge, row.mac) ∷ w), has_mac-row bd k w, e)

mac_removed :
    (bd mac id k : Str) (w : List (Str × Str))
    → ports.remote_fdb_get_by_index w bd mac ≡ some id
    → has_mac ports (remove_row bd id w) bd k ≡ (not (str_eq mac k) && has_mac ports w bd k)
mac_removed bd mac id k w e =
    has_mac-row bd k (remove_row bd id w)
    ∙ ap (λ i. has_row bd k (remove_row bd i w)) (found_mac (has_row bd mac w) mac id e)
    ∙ has_row-remove bd mac k w
    ∙ ap (λ b. not (str_eq mac k) && b) (sym (has_mac-row bd k w))

fdb_laws : FdbLaws ports
unfolding remove_rows
fdb_laws = record {
  has_mac-add = mac_added;
  has_mac-delvalue = mac_removed;
  has_mac-no_row = λ bd k w. ap (λ rows. has_mac ports rows bd k) (remove_none bd w);
}

remote_frame : RemoteFrame ports (λ w. w) ports.l2port_get_by_index1
remote_frame = record {
  fdb = λ bd row w. refl;
  neighbour = λ port row w. refl;
  route = λ vrf row w. refl;
  nexthops = λ w. refl;
}

abbrev start : PortState (List (Str × Str))
start = record {
  port_info_map =
      (str "u1", record no_port { ln_type = logical_switch; location = local; name = str "eth1.5" })
      ∷ [];
  port_type = (str "u1", lsp_ac_local) ∷ [];
  world = [];
}

remote_branch :
    define_port_proc_branch (portbinding_parser bindings ports remote_row []).0 ≡ lsp_ac_remote
unfolding portbinding_parser define_port_proc_branch str_eq
remote_branch = refl

remote_macs : (portbinding_parser bindings ports remote_row []).0.mac ≡ str "fa:16:3e:00:00:01" ∷ []
unfolding portbinding_parser address_parser
remote_macs = refl

start_local : type_of (str "u1") start ≡ lsp_ac_local
unfolding type_of str_eq
start_local = refl

portbinding_update_chassis-stale_example :
    (t : PortState (List (Str × Str))) × (portbinding_update_chassis bindings ports
        (λ w. w)
        remote_row
        (str "u1")
        start
      ≡ some t)
    × (type_of (str "u1") t ≡ lsp_ac_remote)
    × (ports.l2port_get_by_index1 t.world
        ≡ ports.l2port_get_by_index1 (portbinding_parser bindings ports remote_row []).1)
unfolding str_eq
portbinding_update_chassis-stale_example =
    portbinding_update_chassis-stale bindings ports (λ w. w) remote_row (str "u1")
      (str "fa:16:3e:00:00:01") [] start remote_frame start_local remote_branch remote_macs refl

-- The state without ports.
abbrev nothing : PortState (List (Str × Str))
nothing = record { port_info_map = []; port_type = []; world = [] }

entered :
    (t : PortState (List (Str × Str))) × (portbinding_notify_update bindings ports
        (λ w. w)
        true
        insert
        remote_row
        []
        (str "u2")
        nothing
      ≡ some t)
    × (type_of (str "u2") t ≡ lsp_ac_remote)
unfolding portbinding_notify_update portbinding_parser define_port_proc_branch create_new_port
    type_of set_port find put port_gen_rneigh_set address_parser str_eq ◌>>=◌
entered = (_, refl, refl)

Reach-IsConsistent_example :
    type_of (str "u2") entered.0 ≡ define_port_proc_branch (info_of (str "u2") entered.0)
Reach-IsConsistent_example =
    Reach-IsConsistent bindings ports (λ w. w) []
      (notified true insert remote_row [] (str "u2") here entered.1) (str "u2")

abbrev ip_10 : Octets
ip_10 = record { a = 10; b = 1; c = 2; d = 3 }

abbrev net_11 : Octets
net_11 = record { a = 11; b = 0; c = 0; d = 0 }

abbrev net_20 : Octets
net_20 = record { a = 20; b = 2; c = 4; d = 6 }

is_belong_example :
    (is_belong (dotted ip_10) (cidr net_11 8) ≡ some true)
    ↔ (value ip_10 / 2 ^ (32 - 8) ≡ value net_11 / 2 ^ (32 - 8))
unfolding format_binary
is_belong_example =
    is_belong_lem ip_10 net_11 8 (omega arith, omega arith, omega arith, omega arith)
      (omega arith, omega arith, omega arith, omega arith) (omega arith) refl

is_belong_double_example : is_belong (dotted ip_10) (cidr net_20 32) ≡ some true
is_belong_double_example =
    is_belong_double ip_10 net_20 32 (omega arith, omega arith, omega arith, omega arith)
      (omega arith, omega arith, omega arith, omega arith) (omega arith) (omega arith) (omega arith)

abbrev remote_port : PortInfo
remote_port = record no_port {
  ln_type = logical_switch;
  bd = str "Bd5";
  irb = str "Bd5";
  mac = str "fa:16:3e:00:00:01" ∷ [];
  ipv4addr = str "10.0.0.4" ∷ [];
  ipv6addr = str "fd00::4" ∷ [];
  location = remote;
  locator = str "l2";
}

define_port_proc_branch_example :
    (define_port_proc_branch remote_port ≡ lsp_ac_remote)
    ↔ Meets lsp_ac_remote logical_switch [] remote []
define_port_proc_branch_example = define_port_proc_branch_lem remote_port lsp_ac_remote (λ e. cc)

port_gen_route_set-prefixes_example :
    map (λ (rt : Route). rt.ip_prefix) (port_gen_route_set remote_port)
    ≡ map host_prefix (str "10.0.0.4" ∷ str "fd00::4" ∷ [])
port_gen_route_set-prefixes_example = port_gen_route_set-prefixes remote_port

abbrev old_world : PortState (List (Str × Str))
old_world = record nothing { world = (str "Bd5", str "fa:16:3e:00:00:02") ∷ [] }

remote_branch_again :
    define_port_proc_branch (portbinding_parser bindings ports remote_row old_world.world).0
    ≡ lsp_ac_remote
unfolding portbinding_parser define_port_proc_branch str_eq
remote_branch_again = refl

new_macs : (address_parser remote_row.mac).macs ≡ str "fa:16:3e:00:00:01" ∷ []
unfolding address_parser
new_macs = refl

new_macs-Distinct : Distinct (address_parser remote_row.mac).macs
unfolding member
new_macs-Distinct = subst Distinct (sym new_macs) (refl, tt)

old_macs :
    has_mac ports
      (portbinding_parser bindings ports remote_row old_world.world).1
      (portbinding_parser bindings ports remote_row old_world.world).0.bd
      (str "fa:16:3e:00:00:01")
    ≡ member
        (str "fa:16:3e:00:00:01")
        (address_parser (old_addresses (one_mac (str "fa:16:3e:00:00:02 10.0.0.4")))).macs
unfolding has_mac portbinding_parser address_parser member str_eq old_addresses has_row
    bd_name_by_vni
old_macs = refl

portbinding_update_mac_example :
    has_mac ports
      (portbinding_update_mac bindings ports
        (λ w. w)
        remote_row
        (one_mac (str "fa:16:3e:00:00:02 10.0.0.4"))
        (str "u2")
        old_world).world
      (portbinding_parser bindings ports remote_row old_world.world).0.bd
      (str "fa:16:3e:00:00:01")
    ≡ member (str "fa:16:3e:00:00:01") (address_parser remote_row.mac).macs
portbinding_update_mac_example =
    portbinding_update_mac_lem bindings ports (λ w. w) remote_row
      (one_mac (str "fa:16:3e:00:00:02 10.0.0.4")) (str "u2") (str "fa:16:3e:00:00:01") old_world
      fdb_laws remote_branch_again new_macs-Distinct old_macs
