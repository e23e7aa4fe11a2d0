-- ===== src/Vtep/Vnet.antt =====
-- go_vtep/vnet.go: bridge domains and VRFs of the VTEP database, one for each datapath of the OVN
-- southbound database. `vnetProcessAll`, which needs the port
-- bindings, is in ProcessAll. Logging is left out.
pub mod Lifecycle
use govtep.Base.{
  ℕ, Bool, true, false, Option, none, some, List, if◌then◌else◌, Str, str, Error, for_each,
}
use govtep.Ovsdb.Rows.{Op, insert, delete}
use govtep.Vtep.Names.{bd_name_by_vni, vrf_name_by_vni}

-- A datapath binding; `ls_name` and `lr_name` are the values of the keys `logical-switch` and
-- `logical-router` of its external identifiers, none where there is no such key.
pub record TableDatapathBinding : Type 0 where
  pub dp_uuid : Str
  pub tunnel_key : ℕ
  pub ls_name : Option Str
  pub lr_name : Option Str

-- A bridge domain or a VRF.
pub record NetworkRow : Type 0 where
  pub name : Str
  pub vni : ℕ
  pub datapath : Str
  pub logical_name : Str

-- The tables of lib/odbapi/controllervtep that hold networks. The `…_uuids` are the identifiers of
-- all rows.
pub record Vnetdb (W : Type 0) : Type 0 where
  pub bridge_domain_exists : W → Str → Bool
  pub bridge_domain_add : NetworkRow → W → Error × W
  pub bridge_domain_del_by_index : Str → W → Error × W
  pub bridge_domain_uuids : W → List Str
  pub bridge_domain_del_by_uuid : Str → W → Error × W
  pub vrf_exists : W → Str → Bool
  pub vrf_add_row : NetworkRow → W → Error × W
  pub vrf_del_by_index : Str → W → Error × W
  pub vrf_uuids : W → List Str
  pub vrf_del_by_uuid : Str → W → Error × W
  -- physical port and VRF of the new `Auto_Gateway_Conf`
  pub vrf_update_add_gateway_conf : Str → Str → Str → W → Error × W
  pub locator_uuids : W → List Str
  pub locator_del_by_uuid : Str → W → Error × W

module _ {W : Type 0} (db : Vnetdb W) where
  -- `bridgeDomainAdd`, for the name of the logical switch
  pub bridge_domain_add : TableDatapathBinding → Str → W → Error × W
  unfolding bd_name_by_vni
  bridge_domain_add dp ls w =
      let name = bd_name_by_vni dp.tunnel_key in
      let row : NetworkRow = record {
        name = name;
        vni = dp.tunnel_key;
        datapath = dp.dp_uuid;
        logical_name = ls;
      } in
      if db.bridge_domain_exists w name then (none, w) else db.bridge_domain_add row w

  -- `bridgeDomainDel`
  pub bridge_domain_del : ℕ → W → Error × W
  unfolding bd_name_by_vni
  bridge_domain_del vni w = db.bridge_domain_del_by_index (bd_name_by_vni vni) w

  -- `vrfAdd`, for the name of the logical router: the gateway is configured even if the VRF could not
  -- be added, and it is that error which is returned.
  pub vrf_add : TableDatapathBinding → Str → W → Error × W
  unfolding vrf_name_by_vni
  vrf_add dp lr w =
      let name = vrf_name_by_vni dp.tunnel_key in
      let row : NetworkRow = record {
        name = name;
        vni = dp.tunnel_key;
        datapath = dp.dp_uuid;
        logical_name = lr;
      } in
      if db.vrf_exists w name
      then (none, w)
      else db.vrf_update_add_gateway_conf name (str "ep60") name (db.vrf_add_row row w).1

  -- `vrfDel`
  pub vrf_del : ℕ → W → Error × W
  unfolding vrf_name_by_vni
  vrf_del vni w = db.vrf_del_by_index (vrf_name_by_vni vni) w

  by_router : TableDatapathBinding → Option Str → W → W
  unfolding vrf_add
  by_router dp none w = w
  by_router dp (some lr) w = (vrf_add dp lr w).1

  by_switch : TableDatapathBinding → Option Str → W → W
  unfolding bridge_domain_add by_router
  by_switch dp (some ls) w = (bridge_domain_add dp ls w).1
  by_switch dp none w = by_router dp dp.lr_name w

  -- `vnetCreate`
  pub vnet_create : TableDatapathBinding → W → W
  unfolding by_switch
  vnet_create dp w = by_switch dp dp.ls_name w

  remove_router : TableDatapathBinding → Option Str → W → W
  unfolding vrf_del
  remove_router dp none w = w
  remove_router dp (some lr) w = (vrf_del dp.tunnel_key w).1

  remove_switch : TableDatapathBinding → Option Str → W → W
  unfolding bridge_domain_del remove_router
  remove_switch dp (some ls) w = (bridge_domain_del dp.tunnel_key w).1
  remove_switch dp none w = remove_router dp dp.lr_name w

  -- `vnetRemove`
  pub vnet_remove : TableDatapathBinding → W → W
  unfolding remove_switch
  vnet_remove dp w = remove_switch dp dp.ls_name w

  -- `datapathNotifyUpdate`: the binding is that of the new row on an insertion, of the old row on a
  -- deletion; `vnetUpdate` does nothing.
  pub datapath_notify_update : Bool → Op → TableDatapathBinding → W → W
  unfolding vnet_create vnet_remove
  datapath_notify_update false op dp w = w
  datapath_notify_update true insert dp w = vnet_create dp w
  datapath_notify_update true delete dp w = vnet_remove dp w
  datapath_notify_update true _ dp w = w

  -- `vnetRemoveAll`
  pub vnet_remove_all : W → W
  unfolding for_each
  vnet_remove_all w =
      let w1 =
        for_each (db.bridge_domain_uuids w) (λ id w. (db.bridge_domain_del_by_uuid id w).1) w in
      let w2 = for_each (db.vrf_uuids w1) (λ id w. (db.vrf_del_by_uuid id w).1) w1 in
      for_each (db.locator_uuids w2) (λ id w. (db.locator_del_by_uuid id w).1) w2
