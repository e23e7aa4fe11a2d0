-- ===== src/Vtep/Ports/Parser.antt =====
-- `PortbindingParser` of go_vtep/port.go: what a row of the southbound database says of a port. It
-- also binds the port to the chassis of its physical switch. Logging is left out.
pub mod PortName
use govtep.Base.{ℕ, Option, none, some, List, [], ◌∷◌, if◌then◌else◌, Str, str, str_eq}
use govtep.Vtep.Diff.{find}
use govtep.Vtep.Names.{
  DatapathType, bd_name_by_vni, vrf_name_by_vni, subport_name, vethport_name, logical_switch,
  logical_router, other_datapath,
}
use govtep.Vtep.Ports.Databases.{
  Portdb, TablePortBinding, HardwareGateway, TableGatewayChassis, Bindingdb, physical_switch,
  physical_switch_group, other_gateway,
}
use govtep.Vtep.Ports.Info.{Location, PortInfo, port_ltype_lsp, unknown, local, remote}
use govtep.Vtep.Ports.Address.{address_parser}
use govtep.Vtep.Ports.Lookup.{
  VnetType, or_empty, get_ln_by_dpuuid, get_port_ltype, get_port_ptype, lp_belong_which_vnet,
  get_location, get_locator_uuid, get_port_by_lp, vnet_bd, vnet_vrf, no_vnet,
}

-- `options[…].(string)`, and the names of the options
unfoldable pub option_value : Str → TablePortBinding → Option Str
unfolding find
option_value key pb = find key pb.options

abbrev pub pb_option_physical_switch : Str
pb_option_physical_switch = str "physical_switch"

abbrev pub pb_option_physical_switch_group : Str
pb_option_physical_switch_group = str "physical_switch_group"

abbrev pub pb_option_physical_parent_port : Str
pb_option_physical_parent_port = str "physical_parent_port"

-- A gateway chassis makes its ports local.
gateway_location : List HardwareGateway → Location → Location
gateway_location (physical_switch ∷ _) location = local
gateway_location (physical_switch_group ∷ _) location = local
gateway_location (other_gateway ∷ _) location = location
gateway_location [] location = location

-- The chassis, the location and the locator of a port.
record Place : Type 0 where
  chassis : Str
  location : Location
  locator : Str

the_only : List Str → Str
the_only (s ∷ []) = s
the_only _ = []

-- Only one tag is supported.
the_tag : List ℕ → ℕ
the_tag (tag ∷ []) = tag
the_tag _ = 0

bd_of : DatapathType → ℕ → Str
bd_of logical_switch key = bd_name_by_vni key
bd_of logical_router key = []
bd_of other_datapath key = []

vrf_of : DatapathType → ℕ → Str
vrf_of logical_switch key = []
vrf_of logical_router key = vrf_name_by_vni key
vrf_of other_datapath key = []

-- What the parser reads of the peer of a port.
record Peer : Type 0 where
  ltype : Str
  port : Str
  ptype : Str
  bd : Str
  vrf : Str

abbrev no_peer : Peer
no_peer = record { ltype = []; port = []; ptype = []; bd = []; vrf = [] }

peer_networks : Str × VnetType → Str × Str
peer_networks (name, vnet_bd) = (name, [])
peer_networks (name, vnet_vrf) = ([], name)
peer_networks (name, no_vnet) = ([], [])

-- The name of a local port with no type.
ac_name : Str → Location → Str → ℕ → Str
unfolding subport_name
ac_name type local parent tag = if str_eq type [] then subport_name parent (tag ∷ []) else []
ac_name type remote parent tag = []
ac_name type unknown parent tag = []

patch_name : DatapathType → Peer → ℕ → ℕ → Str
unfolding vethport_name
patch_name logical_router peer vnet_key port_key =
    if str_eq peer.ltype port_ltype_lsp then peer.bd else vethport_name vnet_key port_key
patch_name logical_switch peer vnet_key port_key = vethport_name vnet_key port_key
patch_name other_datapath peer vnet_key port_key = vethport_name vnet_key port_key

-- A patch port whose option `peer` is set is named after it.
port_name : Option Str → Str → Str → Str → Str
port_name none type patch ac = ac
port_name (some lp) type patch ac = if str_eq type (str "patch") then patch else ac

-- `getBdifportName` is the name of the bridge domain.
irb_of : DatapathType → Str → Str → Str
irb_of logical_switch type bd = if str_eq type [] then bd else []
irb_of logical_router type bd = []
irb_of other_datapath type bd = []

module _ {W : Type 0} (sb : Bindingdb W) (db : Portdb W) where
  place_on : Option TableGatewayChassis → Str → Str → W → Place
  unfolding gateway_location get_location get_locator_uuid or_empty
  place_on none uuid ps w = record { chassis = uuid; location = unknown; locator = [] }
  place_on (some row) uuid ps w = record {
    chassis = uuid;
    location = gateway_location row.hardware_gateway_chassis (get_location sb row.name ps w);
    locator = or_empty (get_locator_uuid sb row.name w);
  }

  place_of : List Str → Str → W → Place
  unfolding place_on
  place_of (uuid ∷ []) ps w = place_on (sb.chassis_get_by_uuid w uuid) uuid ps w
  place_of _ ps w = record { chassis = []; location = unknown; locator = [] }

  bind_to : Option TableGatewayChassis → Str → W → W
  bind_to none lp w = w
  bind_to (some row) lp w = (sb.port_binding_set_chassis lp row.chassis_uuid w).1

  bind_to_switch : Option Str → Str → W → W
  unfolding bind_to
  bind_to_switch none lp w = w
  bind_to_switch (some system_id) lp w = bind_to (sb.chassis_get_by_index w system_id) lp w

  -- `do phsical switch chassis binding port`
  bind_unbound : List Str → Str → Str → W → W
  unfolding bind_to_switch
  bind_unbound [] ps lp w =
      if str_eq ps [] then w else bind_to_switch (sb.physical_switch_get_by_index w ps) lp w
  bind_unbound (_ ∷ _) ps lp w = w

  peer_of : Option Str → W → Peer
  unfolding peer_networks get_port_ltype get_port_ptype lp_belong_which_vnet get_port_by_lp
  peer_of none w = no_peer
  peer_of (some lp) w =
      let (bd, vrf) = peer_networks (lp_belong_which_vnet sb lp w) in
      record {
        ltype = get_port_ltype sb lp w;
        port = get_port_by_lp sb db lp w;
        ptype = get_port_ptype sb lp w;
        bd = bd;
        vrf = vrf;
      }

  bound : TablePortBinding → W → W
  unfolding bind_unbound or_empty option_value
  bound pb w =
      bind_unbound pb.chassis (or_empty (option_value pb_option_physical_switch pb)) pb.logical_port
        w

  -- The fields, by the network of the datapath, the place, and the peer. The field Peer stays empty:
  -- the option's value has a variable of its own.
  port_info : TablePortBinding → DatapathType × Str × ℕ → Place → Peer → PortInfo
  unfolding ac_name patch_name port_name irb_of bd_of vrf_of address_parser the_only the_tag
      or_empty option_value
  port_info pb (ln_type, ln_name, key) place peer =
      let addresses = address_parser pb.mac in
      let parent = or_empty (option_value pb_option_physical_parent_port pb) in
      let tag = the_tag pb.tag in
      record {
        logical_port = pb.logical_port;
        ln_name = ln_name;
        ln_type = ln_type;
        vnet_tunnel_key = key;
        logical_parent_port = the_only pb.parent_port;
        vlan_tag = tag;
        ipv4addr = addresses.ipv4s;
        ipv6addr = addresses.ipv6s;
        mac = addresses.macs;
        nat = pb.nat_addresses;
        type = pb.type;
        peer = [];
        peer_ltype = peer.ltype;
        peer_port = peer.port;
        peer_ptype = peer.ptype;
        peer_bd = peer.bd;
        peer_vrf = peer.vrf;
        dp_uuid = pb.datapath;
        port_tunnel_key = pb.tunnel_key;
        chassis = place.chassis;
        phy_switch = or_empty (option_value pb_option_physical_switch pb);
        name =
            port_name (option_value (str "peer") pb) pb.type
              (patch_name ln_type peer key pb.tunnel_key)
              (ac_name pb.type place.location parent tag);
        phy_parent_port = parent;
        bd = bd_of ln_type key;
        irb = irb_of ln_type pb.type (bd_of ln_type key);
        vrf = vrf_of ln_type key;
        location = place.location;
        locator = place.locator;
      }

  -- `PortbindingParser`
  unfoldable pub portbinding_parser : TablePortBinding → W → PortInfo × W
  unfolding get_ln_by_dpuuid place_of bound peer_of port_info or_empty option_value
  portbinding_parser pb w =
      let network = get_ln_by_dpuuid sb pb.datapath w in
      let ps = or_empty (option_value pb_option_physical_switch pb) in
      let place = place_of pb.chassis ps w in
      let w' = bound pb w in
      (port_info pb network place (peer_of (option_value (str "peer") pb) w'), w')
