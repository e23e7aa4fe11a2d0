-- ===== src/Uninos/Networks.antt =====
-- driver/uninos/unos_bridge.go and unos_vrf.go: creation and removal of bridges and VRFs, each with
-- the interface that belongs to it. Columns that have the schema's defaults are left out. `none` is
-- the panic of a name that is too short.
pub mod Resume
use govtep.Base.{
  ℕ, Bool, false, ◌&&◌, Option, none, some, List, [], ◌∷◌, ◌++◌, leb, if◌then◌else◌, Str, str,
  Error, errorf,
}
use govtep.Golang.Int.{ℤ, pos, negsuc}
use govtep.Uninos.Databases.{Vtepdb, Configdb}
use govtep.Uninos.Names.{vni_by_bd_name, vni_by_vrf_name}
use govtep.Uninos.Pbr.Acl.{pbr_acl_create, pbr_acl_remove}

-- An interface of the type of bridge domains; a bridge's has no MAC and no VRF.
pub record BdInterface : Type 0 where
  pub name : Str
  pub mac : List Str
  pub vrf : List Str

-- The further tables of lib/odbapi/unosconfig, and the locators of lib/odbapi/controllervtep as pairs
-- of `local_locator` and `route_mac`. `BridgeVniMin` and the like are generated from the schema.
pub record Networkdb (W : Type 0) : Type 0 where
  pub bridge_vni_min : ℕ
  pub bridge_vni_max : ℕ
  pub vrf_l3_vni_min : ℕ
  pub vrf_l3_vni_max : ℕ
  pub bridge_exists : W → Str → Bool
  pub bridge_add : Str → ℤ → W → Error × W
  pub bridge_del_by_index : Str → W → Error × W
  pub vrf_exists : W → Str → Bool
  -- the new row's identifier, which is empty if there is an error
  pub vrf_add : Str → ℤ → W → (Str × Error) × W
  pub vrf_del_by_index : Str → W → Error × W
  pub bd_interface_exists : W → Str → Bool
  pub bd_interface_add : BdInterface → W → Error × W
  pub bd_interface_del_by_index : Str → W → Error × W
  pub locator_get : W → List (Bool × Str)

-- `vni >= low && vni <= high`
pub vni_in_range : ℕ → ℕ → ℤ → Bool
vni_in_range low high (pos n) = leb low n && leb n high
vni_in_range low high (negsuc n) = false

-- `rows[…].RouteMac` of the first local locator
pub local_mac : List (Bool × Str) → List Str
local_mac [] = []
local_mac ((local, mac) ∷ rows) = if local then mac ∷ [] else local_mac rows

module _ {W : Type 0} (vtepdb : Vtepdb W) (cdb : Configdb W) (net : Networkdb W) where
  pub ensure_bd_interface : BdInterface → W → Error × W
  ensure_bd_interface row w =
      if net.bd_interface_exists w row.name then (none, w) else net.bd_interface_add row w

  bridge_added : Str → Error × W → Error × W
  unfolding ensure_bd_interface
  bridge_added name (some e, w) = (some e, w)
  bridge_added name (none, w) = ensure_bd_interface (record { name = name; mac = []; vrf = [] }) w

  pub ensure_bridge : Str → ℤ → W → Error × W
  unfolding bridge_added
  ensure_bridge name vni w =
      bridge_added name (if net.bridge_exists w name then (none, w) else net.bridge_add name vni w)

  create_bridge_of : Str → Option ℤ → W → Option (Error × W)
  unfolding vni_in_range ensure_bridge
  create_bridge_of name none w = none
  create_bridge_of name (some vni) w =
      if vni_in_range net.bridge_vni_min net.bridge_vni_max vni
      then some (ensure_bridge name vni w)
      else some (some (errorf "[Driver] Invalid bridge name %s"), w)

  -- `CreateObject` of `bridgeAPI`
  pub create_bridge : Str → W → Option (Error × W)
  unfolding create_bridge_of vni_by_bd_name
  create_bridge name w = create_bridge_of name (vni_by_bd_name name) w

  bridge_removed : Str → Error × W → Error × W
  bridge_removed name (some e, w) = (some e, w)
  bridge_removed name (none, w) = net.bd_interface_del_by_index name w

  -- `RemoveObject` of `bridgeAPI`
  remove_bridge : Str → W → Error × W
  unfolding bridge_removed
  remove_bridge name w = bridge_removed name (net.bridge_del_by_index name w)

  pub interface_added : Str → Error × W → Error × W
  unfolding pbr_acl_create
  interface_added name (some e, w) = (some e, w)
  interface_added name (none, w) = (none, (pbr_acl_create vtepdb cdb name w).1)

  -- From the label `bdvrf` on: `cfg_name` and `uuid` are those of `vrfCfg` and `vrfUUID`.
  vrf_interface : Str → Str → Str → W → Error × W
  unfolding ensure_bd_interface interface_added local_mac
  vrf_interface name cfg_name uuid w =
      let row : BdInterface = record {
        name = str "Bd" ++ cfg_name;
        mac = local_mac (net.locator_get w);
        vrf = uuid ∷ [];
      } in
      interface_added name (ensure_bd_interface row w)

  vrf_added : Str → (Str × Error) × W → Error × W
  unfolding vrf_interface
  vrf_added name ((uuid, some e), w) = (some e, w)
  vrf_added name ((uuid, none), w) = vrf_interface name name uuid w

  -- A VRF that exists leaves `vrfCfg` and `vrfUUID` empty.
  pub ensure_vrf : Str → ℤ → W → Error × W
  unfolding vrf_interface vrf_added
  ensure_vrf name vni w =
      if net.vrf_exists w name
      then vrf_interface name [] [] w
      else vrf_added name (net.vrf_add name vni w)

  create_vrf_of : Str → Option ℤ → W → Option (Error × W)
  unfolding vni_in_range ensure_vrf
  create_vrf_of name none w = none
  create_vrf_of name (some vni) w =
      if vni_in_range net.vrf_l3_vni_min net.vrf_l3_vni_max vni
      then some (ensure_vrf name vni w)
      else some (some (errorf "[Driver] Invalid vrf name %s"), w)

  -- `CreateObject` of `vrfAPI`
  pub create_vrf : Str → W → Option (Error × W)
  unfolding create_vrf_of vni_by_vrf_name
  create_vrf name w = create_vrf_of name (vni_by_vrf_name name) w

  -- `RemoveObject` of `vrfAPI`: errors are only logged.
  remove_vrf : Str → W → Error × W
  unfolding pbr_acl_remove
  remove_vrf name w =
      let w1 = (net.vrf_del_by_index name w).1 in
      let w2 = (net.bd_interface_del_by_index (str "Bd" ++ name) w1).1 in
      (none, (pbr_acl_remove vtepdb cdb name w2).1)
