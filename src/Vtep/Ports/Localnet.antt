-- ===== src/Vtep/Ports/Localnet.antt =====
-- The automatic gateway configuration in go_vtep/port.go: ports of type `localnet` are bound to the
-- local chassis, and their bridge domain, VLAN and address go to the configuration of a VRF.
-- Logging is left out. A panic of an index out of range is `none`.
use govtep.Base.{
  Bool, true, false, not, ◌&&◌, Option, none, some, List, [], ◌∷◌, ◌==◌, if◌then◌else◌, Str, str,
  str_eq, Error, errorf,
}
use govtep.Golang.Text.{contains}
use govtep.Vtep.Vnet.{TableDatapathBinding}
use govtep.Vtep.Names.{vrf_name_by_vni}
use govtep.Vtep.Ports.Databases.{TableAutoGatewayConf, Portdb, TableGatewayChassis, Bindingdb}
use govtep.Vtep.Ports.Info.{PortInfo}
use govtep.Vtep.Ports.Belong.{is_belong}
use govtep.Vtep.Ports.Parser.{option_value}

-- The row that clears the bridge domain, the VLAN and the address.
cleared_conf : TableAutoGatewayConf → TableAutoGatewayConf
cleared_conf row = record row { bdname = []; vlan = 0; ip = [] }

filled_conf : TableAutoGatewayConf → PortInfo → Str → TableAutoGatewayConf
filled_conf row port ip = record row { bdname = port.bd; vlan = port.vlan_tag; ip = ip }

-- `strings.Contains(port.LogicalPort, "provnet") && port.VlanTag != 0`
abbrev is_provider : PortInfo → Bool
unfolding contains
is_provider port = contains port.logical_port (str "provnet") && not (port.vlan_tag == 0)

first_of : List Str → Option Str
first_of [] = none
first_of (s ∷ _) = some s

module _ {W : Type 0} (sb : Bindingdb W) (db : Portdb W) where
  -- `clearAutoGatewayConfBdValue`
  pub clear_auto_gateway_conf_bd_value : PortInfo → W → Error × W
  unfolding cleared_conf
  clear_auto_gateway_conf_bd_value port w =
      elim (db.auto_gateway_conf_get w port.bd port.vlan_tag) [
        | [] ↦ (none, w)
        | row ∷ _ ↦ db.auto_gateway_conf_set row.vrf (cleared_conf row) w
      ]

  cleared_after : PortInfo → Error × W → Error × W
  unfolding clear_auto_gateway_conf_bd_value
  cleared_after port (some e, w) = (some e, w)
  cleared_after port (none, w) = clear_auto_gateway_conf_bd_value port w

  -- `portunbindLocalNET`
  pub portunbind_local_net : PortInfo → W → Error × W
  unfolding cleared_after
  portunbind_local_net port w =
      cleared_after port
        (sb.port_binding_update_chassis_delvalue port.logical_port (port.chassis ∷ []) w)

  vrf_of_datapath : Option TableDatapathBinding → Option Str
  vrf_of_datapath none = none
  vrf_of_datapath (some dp) = some (vrf_name_by_vni dp.tunnel_key)

  vrf_of_peer : Option Str → W → Option Str
  unfolding vrf_of_datapath
  vrf_of_peer none w = none
  vrf_of_peer (some lp) w = elim (sb.port_binding_get_by_index1 w lp) [
    | none ↦ none
    | some pb ↦ vrf_of_datapath (sb.datapath_binding_get_by_uuid w pb.datapath)
  ]

  -- `getexternalVrf`, none where it returns an error: the VRF at the other side of the first patch
  -- port
  pub get_external_vrf : PortInfo → W → Option Str
  unfolding vrf_of_peer option_value
  get_external_vrf port w = elim (sb.port_binding_get w port.dp_uuid) [
    | [] ↦ none
    | pb ∷ _ ↦ vrf_of_peer (option_value (str "peer") pb) w
  ]

  fill_conf : Option TableAutoGatewayConf → Str → PortInfo → Str → W → Error × W
  unfolding filled_conf
  fill_conf none vrf port ip w = (some (errorf "no gateway configuration"), w)
  fill_conf (some row) vrf port ip w = db.auto_gateway_conf_set vrf (filled_conf row port ip) w

  -- No VRF is no error.
  fill_for : Option Str → PortInfo → Str → W → Error × W
  unfolding fill_conf
  fill_for none port ip w = (none, w)
  fill_for (some vrf) port ip w = fill_conf (db.auto_gateway_conf_get_by_index w vrf) vrf port ip w

  -- One round of the loop, by what `isBelong` says; `rest` are the rounds that follow.
  fill_if : Option Bool → PortInfo → Str → Option (Error × W) → W → Option (Error × W)
  unfolding fill_for get_external_vrf
  fill_if none port ip rest w = none
  fill_if (some false) port ip rest w = rest
  fill_if (some true) port ip rest w = some (fill_for (get_external_vrf port w) port ip w)

  check_address : Option Str → PortInfo → Str → Option (Error × W) → W → Option (Error × W)
  unfolding fill_if is_belong
  check_address none port ip rest w = none
  check_address (some addr) port ip rest w = fill_if (is_belong addr ip) port ip rest w

  check_ports : List Str → PortInfo → W → Option (Error × W)
  unfolding check_address first_of
  check_ports [] port w = some (none, w)
  check_ports (uuid ∷ uuids) port w = elim (sb.logical_switch_port_get_by_uuid w uuid) [
    | none ↦ some (some (errorf "no logical switch port"), w)
    | some none ↦ check_ports uuids port w
    | some (some ip) ↦ check_address (first_of port.ipv4addr) port ip (check_ports uuids port w) w
  ]

  -- `addBdToAutoGatewayConf`
  unfoldable pub add_bd_to_auto_gateway_conf : PortInfo → W → Option (Error × W)
  unfolding check_ports
  add_bd_to_auto_gateway_conf port w = elim (sb.logical_switch_get_by_index w port.ln_name) [
    | none ↦ some (some (errorf "no logical switch"), w)
    | some ports ↦ check_ports ports port w
  ]

  added_after : PortInfo → Error × W → Option (Error × W)
  added_after port (some e, w) = some (some e, w)
  added_after port (none, w) = add_bd_to_auto_gateway_conf port w

  bind_to_chassis : Option TableGatewayChassis → PortInfo → W → Option (Error × W)
  unfolding added_after
  bind_to_chassis none port w = some (some (errorf "no chassis"), w)
  bind_to_chassis (some row) port w =
      added_after port (sb.port_binding_set_chassis port.logical_port row.chassis_uuid w)

  -- `portbindLocalNET`
  pub portbind_local_net : PortInfo → W → Option (Error × W)
  unfolding bind_to_chassis
  portbind_local_net port w = elim (sb.local_locator_get w) [
    | [] ↦ some (some (errorf "Get the value of local_locator failed"), w)
    | chassis ∷ _ ↦ bind_to_chassis (sb.chassis_get_by_index w chassis) port w
  ]

  dropped : Option (Error × W) → Option W
  dropped none = none
  dropped (some (e, w)) = some w

  -- Nothing is done where the configuration has the bridge domain and the VLAN.
  add_unless : Option TableAutoGatewayConf → PortInfo → W → Option W
  unfolding dropped
  add_unless none port w = some w
  add_unless (some row) port w =
      if str_eq row.bdname port.bd && row.vlan == port.vlan_tag
      then some w
      else dropped (add_bd_to_auto_gateway_conf port w)

  update_for : Option Str → PortInfo → W → Option W
  unfolding add_unless
  update_for none port w = some w
  update_for (some vrf) port w = add_unless (db.auto_gateway_conf_get_by_index w vrf) port w

  update_known : List Str → PortInfo → W → Option W
  unfolding update_for get_external_vrf
  update_known [] port w = none
  update_known (mac ∷ _) port w =
      if not (str_eq mac (str "unknown")) && not (str_eq port.chassis [])
      then update_for (get_external_vrf port w) port w
      else some w

  -- `autoGatewayConfTableUpdate`
  pub auto_gateway_conf_table_update : PortInfo → W → Option W
  unfolding update_known
  auto_gateway_conf_table_update port w =
      if is_provider port then update_known port.mac port w else some w

  update_binding : List Str → PortInfo → W → Option (Error × W)
  unfolding portbind_local_net portunbind_local_net
  update_binding [] port w = none
  update_binding (mac ∷ _) port w =
      if not (str_eq mac (str "unknown")) && str_eq port.chassis []
      then portbind_local_net port w
      else if str_eq mac (str "unknown") && not (str_eq port.chassis [])
      then some (portunbind_local_net port w)
      else some (none, w)

  -- `portbindingUpdateLocalNET`
  pub portbinding_update_local_net : PortInfo → W → Option (Error × W)
  unfolding update_binding
  portbinding_update_local_net port w =
      if is_provider port then update_binding port.mac port w else some (none, w)
