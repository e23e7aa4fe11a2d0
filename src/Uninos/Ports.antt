-- ===== src/Uninos/Ports.antt =====
-- driver/uninos/unos_l2port.go and unos_l3port.go: ports of bridges and bindings of interfaces to
-- VRFs, and the tunnels of bridges and VRFs (`AddObjectAttr` of unos_bridge.go and unos_vrf.go).
-- Columns that have the schema's defaults are left out, and so is logging. A value that is not a
-- string, where the code asserts that it is one, is a panic, the result `none`.
pub mod Bridges
use govtep.Base.{
  Bool, true, false, Option, none, some, List, [], ◌∷◌, if◌then◌else◌, Str, str, GoError, Error,
}

pub record L2portObj : Type 0 where
  pub name : Str
  pub bridge_name : Str

-- An attribute: nil, or a value that is a string or not.
pub data AttrValue : Type 0 where
  no_attr not_string : AttrValue
  string_attr : Str → AttrValue

-- Tables of lib/odbapi/unosconfig; interfaces are those of the type of bridge domains.
pub record Portdb (W : Type 0) : Type 0 where
  pub bridge_port_exists : W → L2portObj → Bool
  pub bridge_port_add : L2portObj → W → Error × W
  pub bridge_port_del_by_index : L2portObj → W → Error × W
  pub bridge_port_set_tag_mode : L2portObj → Str → W → Error × W
  -- the new row's identifier, which is empty if there is an error
  pub interface_add : Str → W → (Str × Error) × W
  pub interface_exists : W → Str → Bool
  pub interface_del_by_index : Str → W → Error × W
  pub interface_update_vrf_addvalue : Str → Str → W → Error × W
  pub interface_update_vrf_delvalue : Str → Str → W → Error × W
  -- the column `bridge_ports`, of one identifier
  pub bridge_set_bridge_ports : Str → Str → W → Error × W
  -- the rows' identifiers
  pub bridge_get_by_index : W → Str → Option Str
  pub vrf_get_by_index : W → Str → Option Str
  pub tunnel_get_by_index : W → Str → Option Str
  pub vrf_set_tunnel : Str → Str → W → Error × W
  pub bridge_update_vxlan_tunnel_addvalue : Str → Str → W → Error × W
  -- what `BridgeGetByIndex` returns for a bridge that is not there
  pub no_bridge : GoError

module _ {W : Type 0} (db : Portdb W) where
  with_interface : L2portObj → (Str × Error) × W → Error × W
  with_interface obj ((uuid, some e), w) = (some e, w)
  with_interface obj ((uuid, none), w) = db.bridge_set_bridge_ports obj.bridge_name uuid w

  with_bridge_port : L2portObj → Error × W → Error × W
  unfolding with_interface
  with_bridge_port obj (some e, w) = (some e, w)
  with_bridge_port obj (none, w) = with_interface obj (db.interface_add obj.name w)

  -- `CreateObject` of `l2portAPI`
  unfoldable pub create_l2port : L2portObj → W → Error × W
  unfolding with_bridge_port
  create_l2port obj w =
      if db.bridge_port_exists w obj
      then (none, w)
      else with_bridge_port obj (db.bridge_port_add obj w)

  bridge_port_removed : Str → Error × W → Error × W
  bridge_port_removed name (some e, w) = (some e, w)
  bridge_port_removed name (none, w) = db.interface_del_by_index name w

  -- `RemoveObject` of `l2portAPI`
  unfoldable pub remove_l2port : L2portObj → W → Error × W
  unfolding bridge_port_removed
  remove_l2port obj w = bridge_port_removed obj.name (db.bridge_port_del_by_index obj w)

  -- `AddObjectAttr` of `l2portAPI`, by whether there is a VLAN tag; its error is always nil
  unfoldable pub add_l2port_attr : L2portObj → Bool → W → W
  add_l2port_attr obj true w = (db.bridge_port_set_tag_mode obj (str "tag") w).1
  add_l2port_attr obj false w = w

  -- Adding or deleting the identifier of a VRF.
  bind_vrf : (Str → W → Error × W) → Option Str → W → W
  bind_vrf write none w = w
  bind_vrf write (some uuid) w = (write uuid w).1

  bind_to : (Str → W → Error × W) → AttrValue → W → Option W
  unfolding bind_vrf
  bind_to write no_attr w = some w
  bind_to write not_string w = none
  bind_to write (string_attr vrf) w = some (bind_vrf write (db.vrf_get_by_index w vrf) w)

  -- `AddObjectAttr` of `l3portAPI`; its error is always nil
  unfoldable pub add_l3port_attr : Str → AttrValue → W → Option W
  unfolding bind_to
  add_l3port_attr name vrf w =
      if db.interface_exists w name
      then bind_to (db.interface_update_vrf_addvalue name) vrf w
      else some w

  -- `DelObjectAttr` of `l3portAPI`; its error is always nil
  unfoldable pub del_l3port_attr : Str → AttrValue → W → Option W
  unfolding bind_to
  del_l3port_attr name vrf w =
      if db.interface_exists w name
      then bind_to (db.interface_update_vrf_delvalue name) vrf w
      else some w

  add_tunnel : Str → Option Str → W → W
  add_tunnel bridge none w = w
  add_tunnel bridge (some uuid) w = (db.bridge_update_vxlan_tunnel_addvalue bridge uuid w).1

  bridge_tunnel : Str → AttrValue → W → Option (Error × W)
  unfolding add_tunnel
  bridge_tunnel bridge no_attr w = some (none, w)
  bridge_tunnel bridge not_string w = none
  bridge_tunnel bridge (string_attr tunnel) w =
      some (none, add_tunnel bridge (db.tunnel_get_by_index w tunnel) w)

  found_bridge : Option Str → Str → AttrValue → W → Option (Error × W)
  unfolding bridge_tunnel
  found_bridge none bridge tunnel w = some (some db.no_bridge, w)
  found_bridge (some _) bridge tunnel w = bridge_tunnel bridge tunnel w

  -- `AddObjectAttr` of `bridgeAPI`
  unfoldable pub add_bridge_attr : Str → AttrValue → W → Option (Error × W)
  unfolding found_bridge
  add_bridge_attr bridge tunnel w = found_bridge (db.bridge_get_by_index w bridge) bridge tunnel w

  -- The first tunnel that is not there ends the loop. `none` is a value that is not a string.
  set_tunnel : Str → Option Str → W → Bool × W
  set_tunnel vrf none w = (false, w)
  set_tunnel vrf (some uuid) w = (true, (db.vrf_set_tunnel vrf uuid w).1)

  unless_ended : (W → W) → Bool × W → W
  unless_ended rest (false, w) = w
  unless_ended rest (true, w) = rest w

  set_tunnels : Str → List (Option Str) → W → W
  unfolding set_tunnel unless_ended
  set_tunnels vrf [] w = w
  set_tunnels vrf (none ∷ attrs) w = set_tunnels vrf attrs w
  set_tunnels vrf (some tunnel ∷ attrs) w =
      unless_ended (set_tunnels vrf attrs) (set_tunnel vrf (db.tunnel_get_by_index w tunnel) w)

  found_vrf : Option Str → Str → List (Option Str) → W → W
  unfolding set_tunnels
  found_vrf none vrf attrs w = w
  found_vrf (some _) vrf attrs w = set_tunnels vrf attrs w

  -- `AddObjectAttr` of `vrfAPI`, and `SetObjectAttr`, which does the same, by the values of the
  -- attribute `VrfAttrTunnel`; their error is always nil
  unfoldable pub set_vrf_attr : Str → List (Option Str) → W → W
  unfolding found_vrf
  set_vrf_attr vrf attrs w = found_vrf (db.vrf_get_by_index w vrf) vrf attrs w
