-- ===== src/Vtep/Switches/Update.antt =====
-- go_vtep/physical_switch.go: removal and update of a physical switch.
pub mod Encaps
pub mod Removal
use govtep.Base.{
  Bool, true, false, Option, none, some, List, [], ◌∷◌, if◌then◌else◌, Str, str_eq, Error, for_each,
  errorf,
}
use govtep.Golang.Net.Mac.{is_mac}
use govtep.Vtep.Locator.{GatewayState}
use govtep.Vtep.Switches.{
  SwitchRow, ChassisRow, Switchdb, Fresh, is_ip, encap_of, physical_switch_create, chassis_delete,
}

-- A column of the old row, with its old value.
pub data OldField : Type 0 where
  old_system_id old_encap_ip old_router_mac : Str → OldField
  old_field : OldField

-- `newrow`: the row, and its column `system_id` if that is a string.
pub record NewRow : Type 0 where
  pub table : SwitchRow
  pub system_id_field : Option Str

pub data SwitchUpdate : Type 0 where
  inserted : SwitchRow → SwitchUpdate
  deleted : SwitchRow → SwitchUpdate
  updated : NewRow → List OldField → SwitchUpdate

module _ {W : Type 0} (db : Switchdb W) where
  in_world : (W → W) → GatewayState W → GatewayState W
  in_world f g = record g { world = f g.world }

  leave_if : Bool → SwitchRow → W → W
  leave_if true ps w = (db.chassis_update_gateway_chassis_members_delvalue ps.system_id ps.uuid w).1
  leave_if false ps w = w

  -- The loop over the members: whether there is another one, and the world.
  unfoldable pub leave : List Str → SwitchRow → Bool → W → Bool × W
  unfolding leave_if
  leave [] ps others w = (others, w)
  leave (member ∷ members) ps others w =
      let mine = str_eq member ps.uuid in
      leave members ps (if mine then others else true) (leave_if mine ps w)

  -- With other members, only the locator goes, and with it the networks.
  drop_locator : (W → W) → Option Bool → SwitchRow → GatewayState W → GatewayState W
  drop_locator vnet_remove_all none ps g = g
  drop_locator vnet_remove_all (some _) ps g = record {
    gateway_init_done = false;
    world = vnet_remove_all (db.locator_del_by_index ps.system_id g.world).1;
  }

  after_leaving : (W → W) → SwitchRow → Bool → Bool × W → GatewayState W
  unfolding drop_locator
  after_leaving vnet_remove_all ps done (false, w) = record {
    gateway_init_done = done;
    world = (db.chassis_del_by_index ps.system_id w).1;
  }
  after_leaving vnet_remove_all ps done (true, w) =
      drop_locator vnet_remove_all (db.locator_get_by_index w ps.system_id) ps
        (record { gateway_init_done = done; world = w })

  remove_found : (W → W) → Option ChassisRow → SwitchRow → GatewayState W → GatewayState W
  unfolding leave after_leaving in_world
  remove_found vnet_remove_all none ps g = g
  remove_found vnet_remove_all (some chassis) ps g =
      if ps.gateway_group
      then after_leaving vnet_remove_all ps g.gateway_init_done
          (leave chassis.gateway_chassis_members ps false g.world)
      else in_world (λ w. (db.chassis_del_by_index ps.system_id w).1) g

  -- `physicalSwitchRemove`
  unfoldable pub physical_switch_remove : (W → W) → SwitchRow → GatewayState W → GatewayState W
  unfolding remove_found
  physical_switch_remove vnet_remove_all ps g =
      if str_eq ps.system_id []
      then g
      else remove_found vnet_remove_all (db.chassis_get_by_index g.world ps.system_id) ps g

  update_id : Fresh → Option Str → Str → SwitchRow → W → Error × W
  unfolding physical_switch_create chassis_delete
  update_id fresh none old ps w = (some (errorf "Physical Switch system_id get failed"), w)
  update_id fresh (some id) [] ps w = (none, physical_switch_create db fresh ps w)
  update_id fresh (some []) old ps w = chassis_delete db old w
  update_id fresh (some (_ ∷ _)) old ps w =
      (some (errorf "Don't support update Physical Switch's system_id from %s to %s"), w)

  -- `physicalSwitchUpdateSystemID`
  unfoldable pub physical_switch_update_system_id : Fresh → NewRow → Str → W → Error × W
  unfolding update_id
  physical_switch_update_system_id fresh row old w =
      update_id fresh row.system_id_field old row.table w

  removed_encap : Error × W → Error × W
  removed_encap (some _, w) = (some (errorf "Remove old encap %v failed"), w)
  removed_encap (none, w) = (none, w)

  -- The old encapsulation goes when the new one has come.
  added_encap : Str → Str → Error × W → Error × W
  unfolding removed_encap
  added_encap name old (some _, w) = (some (errorf "Add new encap %s failed"), w)
  added_encap name old (none, w) = removed_encap (db.chassis_update_encaps_delvalue name old w)

  unfoldable pub swap_encap : List Str → SwitchRow → W → Error × W
  unfolding added_encap encap_of
  swap_encap (old ∷ []) ps w =
      added_encap ps.system_id old (db.chassis_update_add_encaps ps.system_id (encap_of db ps) w)
  swap_encap _ ps w = (some (errorf "Chassis %s related Encap not exist"), w)

  unidentified : Fresh → Bool → SwitchRow → W → Error × W
  unfolding physical_switch_create
  unidentified fresh true ps w =
      (some (errorf "Physical Switch not configured system_id, no related chassis"), w)
  unidentified fresh false ps w = (none, physical_switch_create db fresh ps w)

  check_ip : List Str → SwitchRow → W → Error × W
  unfolding swap_encap is_ip
  check_ip (old ∷ []) ps w =
      if str_eq ps.encap_ip []
      then swap_encap (old ∷ []) ps w
      else if is_ip ps.encap_ip
      then swap_encap (old ∷ []) ps w
      else (some (errorf "Invalid encap_ip %s, not update"), w)
  check_ip encaps ps w = swap_encap encaps ps w

  encap_ip_of : Option ChassisRow → SwitchRow → W → Error × W
  unfolding check_ip
  encap_ip_of none ps w = (some (errorf "Chassis %s not exist"), w)
  encap_ip_of (some chassis) ps w = check_ip chassis.encaps ps w

  -- `physicalSwitchUpdateEncapIP`
  unfoldable pub physical_switch_update_encap_ip : Fresh → SwitchRow → Str → W → Error × W
  unfolding unidentified encap_ip_of is_ip
  physical_switch_update_encap_ip fresh ps old w =
      if str_eq ps.system_id []
      then unidentified fresh (is_ip old) ps w
      else encap_ip_of (db.chassis_get_by_index w ps.system_id) ps w

  route_mac_of : Option ChassisRow → SwitchRow → W → Error × W
  unfolding swap_encap is_mac
  route_mac_of none ps w = (some (errorf "Chassis %s not exist"), w)
  route_mac_of (some chassis) ps w =
      if is_mac ps.router_mac
      then swap_encap chassis.encaps ps w
      else (some (errorf "Physical Switch update invalid route mac %s"), w)

  -- `physicalSwitchUpdateRouteMac`
  unfoldable pub physical_switch_update_route_mac : Fresh → SwitchRow → Str → W → Error × W
  unfolding unidentified route_mac_of is_mac
  physical_switch_update_route_mac fresh ps old w =
      if str_eq ps.system_id []
      then unidentified fresh (is_mac old) ps w
      else route_mac_of (db.chassis_get_by_index w ps.system_id) ps w

  update_field : Fresh → NewRow → OldField → W → Error × W
  unfolding physical_switch_update_system_id physical_switch_update_encap_ip
      physical_switch_update_route_mac
  update_field fresh row (old_system_id old) w = physical_switch_update_system_id fresh row old w
  update_field fresh row (old_encap_ip old) w =
      physical_switch_update_encap_ip fresh row.table old w
  update_field fresh row (old_router_mac old) w =
      physical_switch_update_route_mac fresh row.table old w
  update_field fresh row old_field w = (none, w)

  -- An error ends the loop.
  unless_failed : (W → W) → Error × W → W
  unless_failed rest (some _, w) = w
  unless_failed rest (none, w) = rest w

  -- `physicalSwitchUpdate`; what it gets from outside may differ from field to field
  unfoldable pub physical_switch_update : (OldField → Fresh) → NewRow → List OldField → W → W
  unfolding update_field unless_failed
  physical_switch_update fresh row [] w = w
  physical_switch_update fresh row (field ∷ fields) w =
      unless_failed (physical_switch_update fresh row fields)
        (update_field (fresh field) row field w)

  -- `physicalSwitchNotifyUpdate`, with `OvnCentralConnected`
  unfoldable pub physical_switch_notify_update :
      (W → W) → Fresh → (OldField → Fresh) → Bool → SwitchUpdate → GatewayState W → GatewayState W
  unfolding physical_switch_create physical_switch_remove physical_switch_update in_world
  physical_switch_notify_update vnet_remove_all fresh for_field false update g = g
  physical_switch_notify_update vnet_remove_all fresh for_field true (inserted ps) g =
      in_world (physical_switch_create db fresh ps) g
  physical_switch_notify_update vnet_remove_all fresh for_field true (deleted ps) g =
      physical_switch_remove vnet_remove_all ps g
  physical_switch_notify_update vnet_remove_all fresh for_field true (updated row fields) g =
      in_world (physical_switch_update for_field row fields) g

  -- `PhysicalSwitchInit`, for the rows of the table
  unfoldable pub physical_switch_init : (SwitchRow → Fresh) → List SwitchRow → W → W
  unfolding for_each physical_switch_create
  physical_switch_init fresh rows w =
      for_each rows (λ ps. physical_switch_create db (fresh ps) ps) w
