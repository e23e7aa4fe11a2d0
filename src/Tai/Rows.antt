-- ===== src/Tai/Rows.antt =====
-- tai/tai_bridge.go, tai_vrf.go, tai_l2port.go, tai_l3port.go, tai_route.go, tai_fdb.go,
-- tai_neighbour.go, tai_pbr.go, tai_autogatewayconf.go and tai_mcastfdb.go: the object and
-- attributes of a row, and the attributes of the old values of an update. Rows come converted.
-- `tunnel` is `LocalPhsicalSwitchTunnelName`, and `locator_get_by_uuid` gives the addresses of a
-- locator; a locator without an address is a panic, the result `none`. A loop over an old row goes
-- through the list.
pub mod Neighbours
use govtep.Base.{String, Option, none, some, List, [], ◌∷◌, Str}
use govtep.Golang.Int.{ℤ}
use govtep.Ovsdb.Rows.{Fields, assign}

-- A value of an attribute, and of a column of an old row, by its Go type.
pub data Dynamic : Type 0 where
  a_text : Str → Dynamic
  a_number : ℤ → Dynamic
  texts : List Str → Dynamic
  numbers : List ℤ → Dynamic
  of_other_type : Dynamic

abbrev pub Attrs : Type 0
Attrs = Fields Dynamic

-- The columns that the modules read of an old row.
pub data Column : Type 0 where
  l2vni_column l3vni_column vlantag_column vrf_column ipv4addr_column : Column
  nexthop_column nh_vrf_column output_port_column policy_column nh_group_column : Column
  remote_locator_column mac_column locators_column : Column
  bdname_column vlan_column ip_column physical_port_column other_column : Column

abbrev pub OldRow : Type 0
OldRow = List (Column × Dynamic)

-- `attrs[key] = value`, where the value is a string, and where it is an int
if_text : String → Dynamic → Attrs → Attrs
unfolding assign
if_text key (a_text v) attrs = assign key (a_text v) attrs
if_text key _ attrs = attrs

if_number : String → Dynamic → Attrs → Attrs
unfolding assign
if_number key (a_number v) attrs = assign key (a_number v) attrs
if_number key _ attrs = attrs

-- `for attr, value := range row.Fields { … }`
unfoldable pub read_row : (Column → Dynamic → Attrs → Attrs) → OldRow → Attrs
read_row read [] = []
read_row read ((c, v) ∷ row) = read c v (read_row read row)

-- `rowToBridgeAttrs`
bridge_attr : Column → Dynamic → Attrs → Attrs
unfolding if_text
bridge_attr l2vni_column v attrs = if_text "bridge_l2vni" v attrs
bridge_attr _ v attrs = attrs

-- `rowToVrfAttrs`
vrf_attr : Column → Dynamic → Attrs → Attrs
unfolding if_text
vrf_attr l3vni_column v attrs = if_text "vrf_l3vni" v attrs
vrf_attr _ v attrs = attrs

-- `rowToL2portAttrs`
l2port_attr : Column → Dynamic → Attrs → Attrs
unfolding if_number
l2port_attr vlantag_column v attrs = if_number "l2port_vlantag" v attrs
l2port_attr _ v attrs = attrs

-- `rowToL3portAttrs`
l3port_attr : Column → Dynamic → Attrs → Attrs
unfolding if_text if_number
l3port_attr vrf_column v attrs = if_text "l3port_vrfbinding" v attrs
l3port_attr ipv4addr_column v attrs = if_text "l3port_ipaddr" v attrs
l3port_attr vlantag_column v attrs = if_number "l3port_vlantag" v attrs
l3port_attr _ v attrs = attrs

-- `rowToRouteAttrs`
route_attr : Column → Dynamic → Attrs → Attrs
unfolding if_text
route_attr nexthop_column v attrs = if_text "route_nexthop" v attrs
route_attr nh_vrf_column v attrs = if_text "route_nhvrf" v attrs
route_attr output_port_column v attrs = if_text "route_outputport" v attrs
route_attr policy_column v attrs = if_text "route_policy" v attrs
route_attr _ v attrs = attrs

-- `rowToFdbAttrs`
fdb_attr : Column → Dynamic → Attrs → Attrs
unfolding if_text
fdb_attr remote_locator_column v attrs = if_text "fdb_locator" v attrs
fdb_attr _ v attrs = attrs

-- `rowToNeighbourAttrs`
unfoldable pub neighbour_attr : Column → Dynamic → Attrs → Attrs
unfolding if_text
neighbour_attr mac_column v attrs = if_text "neighbour_macaddr" v attrs
neighbour_attr remote_locator_column v attrs = if_text "neighbour_locator" v attrs
neighbour_attr _ v attrs = attrs

-- `rowToMcastfdbAttrs`
mcastfdb_attr : Column → Dynamic → Attrs → Attrs
unfolding if_text
mcastfdb_attr locators_column v attrs = if_text "mcastfdb_locators" v attrs
mcastfdb_attr _ v attrs = attrs

-- `rowToPBRAttrs`: one nexthop or a set of them
pbr_attr : Column → Dynamic → Attrs → Attrs
unfolding assign
pbr_attr nh_group_column (a_text v) attrs = assign "pbr_nexthop_group" (texts (v ∷ [])) attrs
pbr_attr nh_group_column (texts vs) attrs = assign "pbr_nexthop_group" (texts vs) attrs
pbr_attr _ v attrs = attrs

-- `rowToAutoGatewayConfAttrs`
auto_gateway_conf_attr : Column → Dynamic → Attrs → Attrs
unfolding if_text
auto_gateway_conf_attr bdname_column v attrs = if_text "autogatewayconf_bdname" v attrs
auto_gateway_conf_attr vlan_column v attrs = if_text "autogatewayconf_vlan" v attrs
auto_gateway_conf_attr ip_column v attrs = if_text "autogatewayconf_ip" v attrs
auto_gateway_conf_attr physical_port_column v attrs = if_text "autogatewayconf_physicalport" v attrs
auto_gateway_conf_attr _ v attrs = attrs

pub record NeighRow : Type 0 where
  pub ipaddr : Str
  pub mac : Str
  pub out_l3port : Str
  pub remote_locator : Str

pub record FdbRow : Type 0 where
  pub bridge : Str
  pub mac : Str
  pub remote_locator : Str

pub record PbrRow : Type 0 where
  pub type : Str
  pub vrf : Str
  pub ip : Str
  pub port : List ℤ
  pub protocol : List Str
  pub nh_group : List Str

pub record RouteRow : Type 0 where
  pub vrf : Str
  pub ip_prefix : Str
  pub nexthop : Str
  pub nh_vrf : Str
  pub output_port : Str
  pub policy : Str

pub record PbrObj : Type 0 where
  pub type : Str
  pub vrf : Str
  pub ip : Str
  pub port : ℤ
  pub protocol : Str

-- `rowToBridgeObj` and `rowToVrfObj`, of the name and the VNI: the attributes
bridge_attrs : Str → Attrs
bridge_attrs tunnel = ("bridge_vxlan_tunnel", a_text tunnel) ∷ []

vrf_attrs : Str → ℤ → Attrs
vrf_attrs tunnel vni = ("vrf_l3vni", a_number vni) ∷ ("vrf_tunnel", a_text tunnel) ∷ []

-- `rowToRouteObj`: the attributes
route_attrs : RouteRow → Attrs
route_attrs row =
    ("route_nexthop", a_text row.nexthop)
    ∷ ("route_nhvrf", a_text row.nh_vrf)
    ∷ ("route_outputport", a_text row.output_port)
    ∷ ("route_policy", a_text row.policy)
    ∷ []

-- `rowToPBRObj`: a row without exactly one port and protocol is no object
unfoldable pub pbr_obj : PbrRow → List ℤ → List Str → Option (PbrObj × Attrs)
pbr_obj row (port ∷ []) (protocol ∷ []) = some (
  record { type = row.type; vrf = row.vrf; ip = row.ip; port = port; protocol = protocol },
  ("pbr_nexthop_group", texts row.nh_group) ∷ [],
)
pbr_obj row _ _ = none

-- The address of a locator that is found, as an attribute.
remote_ip : String → Attrs → Option (List Str) → Option Attrs
remote_ip key attrs none = some attrs
remote_ip key attrs (some []) = none
remote_ip key attrs (some (ip ∷ _)) = some ((key, a_text ip) ∷ attrs)

-- `rowToNeighbourObj`: the attributes
unfoldable pub neighbour_attrs : (Str → Option (List Str)) → NeighRow → Option Attrs
unfolding remote_ip
neighbour_attrs locator_get_by_uuid row =
    remote_ip "neighbour_remoteip"
      (("neighbour_macaddr", a_text row.mac) ∷ ("neighbour_outport", a_text row.out_l3port) ∷ [])
      (locator_get_by_uuid row.remote_locator)

-- `rowToFdbObj`: the attributes; a locator that is not found leaves none
fdb_found : Str → Option (List Str) → Option Attrs
fdb_found tunnel none = some []
fdb_found tunnel (some []) = none
fdb_found tunnel (some (ip ∷ _)) =
    some (("fdb_remote_ip", a_text ip) ∷ ("fdb_tunnel_name", a_text tunnel) ∷ [])

fdb_attrs : Str → (Str → Option (List Str)) → FdbRow → Option Attrs
unfolding fdb_found
fdb_attrs tunnel locator_get_by_uuid row = fdb_found tunnel (locator_get_by_uuid row.remote_locator)
