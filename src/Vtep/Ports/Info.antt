-- ===== src/Vtep/Ports/Info.antt =====
-- `PortInfo` of go_vtep/port.go: what a port binding says, and the branches of its processing. The
-- field FailureReason, which nothing sets, is left out.
pub mod Table
use govtep.Base.{ℕ, List, [], if◌then◌else◌, Str, str, str_eq}
use govtep.Vtep.Names.{DatapathType, logical_switch, logical_router, other_datapath}

-- `LocationUnknown`, `LocationLocal` and `LocationRemote`
pub data Location : Type 0 where
  unknown local remote : Location

pub record PortInfo : Type 0 where
  pub logical_port : Str
  pub ln_name : Str
  pub ln_type : DatapathType
  pub vnet_tunnel_key : ℕ
  pub logical_parent_port : Str
  pub vlan_tag : ℕ
  pub ipv4addr : List Str
  pub ipv6addr : List Str
  pub mac : List Str
  pub nat : List Str
  pub type : Str
  pub peer : Str
  pub peer_ltype : Str
  pub peer_port : Str
  pub peer_ptype : Str
  pub peer_bd : Str
  pub peer_vrf : Str
  pub dp_uuid : Str
  pub port_tunnel_key : ℕ
  pub chassis : Str
  pub phy_switch : Str
  pub name : Str
  pub phy_parent_port : Str
  pub bd : Str
  pub irb : Str
  pub vrf : Str
  pub location : Location
  pub locator : Str

-- `PortInfo{}`, what a Go map has for a missing key. An empty string is no location.
abbrev pub no_port : PortInfo
no_port = record {
  logical_port = [];
  ln_name = [];
  ln_type = other_datapath;
  vnet_tunnel_key = 0;
  logical_parent_port = [];
  vlan_tag = 0;
  ipv4addr = [];
  ipv6addr = [];
  mac = [];
  nat = [];
  type = [];
  peer = [];
  peer_ltype = [];
  peer_port = [];
  peer_ptype = [];
  peer_bd = [];
  peer_vrf = [];
  dp_uuid = [];
  port_tunnel_key = 0;
  chassis = [];
  phy_switch = [];
  name = [];
  phy_parent_port = [];
  bd = [];
  irb = [];
  vrf = [];
  location = unknown;
  locator = [];
}

-- `PortLtypeLSP`, `PortLtypeLRP`, `PortPtypeL2`, `PortPtypeL3`
abbrev pub port_ltype_lsp : Str
port_ltype_lsp = str "lsp"

abbrev pub port_ltype_lrp : Str
port_ltype_lrp = str "lrp"

abbrev pub port_ptype_l2 : Str
port_ptype_l2 = str "l2port"

abbrev pub port_ptype_l3 : Str
port_ptype_l3 = str "l3port"

-- `LSPACLocal` to `LRPPatchLRP`; `no_branch` is the 0 of no branch, also that of a missing key.
pub data ProcBranch : Type 0 where
  no_branch lsp_ac_local lsp_ac_remote lsp_patch_lsp lsp_patch_lrp lsp_localnet : ProcBranch
  lrp_ac_local lrp_ac_remote lrp_patch_lsp lrp_patch_lrp : ProcBranch

-- The branches of a patch port, by the kind of its peer.
patch_branch : Str → ProcBranch → ProcBranch → ProcBranch
unfolding str_eq
patch_branch ltype to_lsp to_lrp =
    if str_eq ltype port_ltype_lsp
    then to_lsp
    else if str_eq ltype port_ltype_lrp
    then to_lrp
    else no_branch

-- What follows where the location has not decided.
lsp_branch : PortInfo → ProcBranch
unfolding patch_branch str_eq
lsp_branch port =
    if str_eq port.type (str "patch")
    then patch_branch port.peer_ltype lsp_patch_lsp lsp_patch_lrp
    else if str_eq port.type (str "localnet")
    then lsp_localnet
    else no_branch

lrp_branch : PortInfo → ProcBranch
unfolding patch_branch str_eq
lrp_branch port =
    if str_eq port.type (str "patch")
    then patch_branch port.peer_ltype lrp_patch_lsp lrp_patch_lrp
    else no_branch

by_location : Location → ProcBranch → ProcBranch → ProcBranch → ProcBranch
by_location local at_local at_remote rest = at_local
by_location remote at_local at_remote rest = at_remote
by_location unknown at_local at_remote rest = rest

by_network : DatapathType → PortInfo → ProcBranch
unfolding lsp_branch lrp_branch by_location str_eq
by_network logical_switch port =
    if str_eq port.type []
    then by_location port.location lsp_ac_local lsp_ac_remote (lsp_branch port)
    else lsp_branch port
by_network logical_router port =
    by_location port.location lrp_ac_local lrp_ac_remote (lrp_branch port)
by_network other_datapath port = no_branch

-- `definePortProcBranch`
unfoldable pub define_port_proc_branch : PortInfo → ProcBranch
unfolding by_network
define_port_proc_branch port = by_network port.ln_type port
