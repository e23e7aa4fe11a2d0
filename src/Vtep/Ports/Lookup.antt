-- ===== src/Vtep/Ports/Lookup.antt =====
-- The lookups of ports and networks in go_vtep/commonapi.go. Logging is left out; an empty string
-- stands for no name, as in the code.
use govtep.Base.{ℕ, Option, none, some, [], if◌then◌else◌, Str, str_eq}
use govtep.Vtep.Vnet.{TableDatapathBinding}
use govtep.Vtep.Names.{
  DatapathType, bd_name_by_vni, vrf_name_by_vni, logical_switch, logical_router, other_datapath,
}
use govtep.Vtep.Ports.Databases.{Portdb, TablePortBinding, Bindingdb}
use govtep.Vtep.Ports.Info.{
  Location, port_ltype_lsp, port_ltype_lrp, port_ptype_l2, port_ptype_l3, local, remote,
}

-- A datapath is a switch before it is a router.
network_of : TableDatapathBinding → DatapathType × Str × ℕ
network_of dp = elim dp.ls_name [
  | some name ↦ (logical_switch, name, dp.tunnel_key)
  | none ↦ elim dp.lr_name [
    | some name ↦ (logical_router, name, dp.tunnel_key)
    | none ↦ (other_datapath, [], dp.tunnel_key)
  ]
]

-- `VnetTypeBD`, `VnetTypeVRF` and no type
pub data VnetType : Type 0 where
  vnet_bd vnet_vrf no_vnet : VnetType

ltype_of : DatapathType → Str
ltype_of logical_switch = port_ltype_lsp
ltype_of logical_router = port_ltype_lrp
ltype_of other_datapath = []

ptype_of : DatapathType → Str
ptype_of logical_switch = port_ptype_l2
ptype_of logical_router = port_ptype_l3
ptype_of other_datapath = []

unfoldable pub or_empty : Option Str → Str
or_empty none = []
or_empty (some s) = s

datapath_of : TablePortBinding → Option Str
datapath_of pb = if str_eq pb.datapath [] then none else some pb.datapath

module _ {W : Type 0} (sb : Bindingdb W) where
  -- `getLnByDpuuid`
  unfoldable pub get_ln_by_dpuuid : Str → W → DatapathType × Str × ℕ
  unfolding network_of
  get_ln_by_dpuuid dp w = elim (sb.datapath_binding_get_by_uuid w dp) [
    | none ↦ (other_datapath, [], 0)
    | some row ↦ network_of row
  ]

  -- `getDpuuidByLogicalPort`
  pub get_dpuuid_by_logical_port : Str → W → Option Str
  unfolding datapath_of
  get_dpuuid_by_logical_port lp w = elim (sb.port_binding_get_by_index1 w lp) [
    | none ↦ none
    | some pb ↦ datapath_of pb
  ]

  -- The network of a logical port, if its datapath is known.
  network_by_port : Str → W → Option (DatapathType × Str × ℕ)
  unfolding get_dpuuid_by_logical_port get_ln_by_dpuuid
  network_by_port lp w = elim (get_dpuuid_by_logical_port lp w) [
    | none ↦ none
    | some dp ↦ some (get_ln_by_dpuuid dp w)
  ]

  -- `getPortLtype`
  unfoldable pub get_port_ltype : Str → W → Str
  unfolding network_by_port ltype_of
  get_port_ltype lp w = elim (network_by_port lp w) [
    | none ↦ []
    | some (type, name, key) ↦ ltype_of type
  ]

  -- `getPortPtype`
  unfoldable pub get_port_ptype : Str → W → Str
  unfolding network_by_port ptype_of
  get_port_ptype lp w = elim (network_by_port lp w) [
    | none ↦ []
    | some (type, name, key) ↦ ptype_of type
  ]

  -- `lspBelongWhichBd`
  lsp_belong_which_bd : Str → W → Str × VnetType
  unfolding network_by_port
  lsp_belong_which_bd lp w = elim (network_by_port lp w) [
    | none ↦ ([], no_vnet)
    | some (type, name, key) ↦ (bd_name_by_vni key, vnet_bd)
  ]

  -- `lspBelongWhichVrf`
  lsp_belong_which_vrf : Str → W → Str × VnetType
  unfolding network_by_port
  lsp_belong_which_vrf lp w = elim (network_by_port lp w) [
    | none ↦ ([], no_vnet)
    | some (type, name, key) ↦ (vrf_name_by_vni key, vnet_vrf)
  ]

  -- `lpBelongWhichVnet`
  unfoldable pub lp_belong_which_vnet : Str → W → Str × VnetType
  unfolding get_port_ltype lsp_belong_which_bd lsp_belong_which_vrf
  lp_belong_which_vnet lp w =
      if str_eq (get_port_ltype lp w) port_ltype_lsp
      then lsp_belong_which_bd lp w
      else if str_eq (get_port_ltype lp w) port_ltype_lrp
      then lsp_belong_which_vrf lp w
      else ([], no_vnet)

  -- `getBdByLogicalPort`
  pub get_bd_by_logical_port : Str → W → Option Str
  unfolding network_by_port
  get_bd_by_logical_port lp w = elim (network_by_port lp w) [
    | none ↦ none
    | some (type, name, key) ↦ some (bd_name_by_vni key)
  ]

  -- `getLocation`, which does not read the group
  unfoldable pub get_location : Str → Str → W → Location
  get_location chassis ps w =
      if str_eq ps [] then remote else elim (sb.physical_switch_get_by_index w ps) [
        | none ↦ remote
        | some system_id ↦ if str_eq system_id chassis then local else remote
      ]

  -- `getLocatorUUID`
  unfoldable pub get_locator_uuid : Str → W → Option Str
  get_locator_uuid chassis w = sb.locator_get_by_index w chassis

module _ {W : Type 0} (sb : Bindingdb W) (db : Portdb W) where
  -- `getL2port` and `getL3port`
  get_l2port : Str → W → Option Str
  get_l2port lp w = elim (db.l2port_get_by_index w lp) [ none ↦ none | some row ↦ some row.name ]

  get_l3port : Str → W → Option Str
  get_l3port lp w = elim (db.l3port_get_by_index w lp) [ none ↦ none | some row ↦ some row.name ]

  -- `getPortByLp`
  unfoldable pub get_port_by_lp : Str → W → Str
  unfolding get_l2port get_l3port or_empty
  get_port_by_lp lp w =
      let ptype = get_port_ptype sb lp w in
      if str_eq ptype port_ptype_l2
      then or_empty (get_l2port lp w)
      else if str_eq ptype port_ptype_l3
      then or_empty (get_l3port lp w)
      else []
