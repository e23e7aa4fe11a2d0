-- ===== src/Vtep/Locator/Gateway.antt =====
-- When the gateway counts as initialised: the flag `GatewayInitDone` after a creation and a removal.
use govtep.Base.{
  ◌≡◌, Bool, true, false, not, ◌&&◌, ◌||◌, Option, none, some, arith, ◌==◌, if◌then◌else◌, Str,
  length, Error,
}
use govtep.Vtep.Databases.{TableLocator, TableChassis, Locatordb}
use govtep.Vtep.Locator.{
  GatewayState, new_locator, announce, added_locator, create_checked, locator_create, withdraw,
  removed_locator, remove_checked, locator_remove,
}

is_none : Error → Bool
is_none none = true
is_none (some e) = false

abbrev pub is_local_row : Option TableLocator → Bool
is_local_row none = false
is_local_row (some row) = row.local_locator

module _ {W : Type 0} (db : Locatordb W) (vnet_process_all vnet_remove_all : W → W)
    (route_nh_update : Str → Str → W → W) where
  stands : Option TableLocator → TableChassis → W → Option TableLocator
  unfolding is_none
  stands (some row) chassis w = some row
  stands none chassis w =
      let locator = new_locator db vnet_process_all vnet_remove_all route_nh_update chassis w in
      let w1 = announce db vnet_process_all vnet_remove_all route_nh_update locator w in
      if is_none (db.locator_add locator w1).0 then some locator else none

  -- The locator that a creation finds, or makes and adds without an error.
  pub stands_after : TableChassis → W → Option TableLocator
  unfolding stands
  stands_after chassis w = stands (db.locator_get_by_index w chassis.name) chassis w

  deleted : Option TableLocator → TableChassis → W → Option TableLocator
  unfolding is_none
  deleted none chassis w = none
  deleted (some row) chassis w =
      let w1 = withdraw db vnet_process_all vnet_remove_all route_nh_update row w in
      if is_none (db.locator_del_by_index chassis.name w1).0 then some row else none

  -- The locator that a removal deletes without an error.
  pub deleted_by : TableChassis → W → Option TableLocator
  unfolding deleted
  deleted_by chassis w = deleted (db.locator_get_by_index w chassis.name) chassis w

  added_flag :
      (locator : TableLocator) (done : Bool) (r : Error × W)
      → (added_locator db vnet_process_all vnet_remove_all route_nh_update locator done
          r).1.gateway_init_done
        ≡ (done || is_local_row (if is_none r.0 then some locator else none))
  unfolding added_locator is_none
  added_flag locator done (some e, w) = ground arith
  added_flag locator done (none, w) = ground arith

  removed_flag :
      (locator : TableLocator) (done : Bool) (r : Error × W)
      → (removed_locator db vnet_process_all vnet_remove_all route_nh_update locator done
          r).1.gateway_init_done
        ≡ (done && not (is_local_row (if is_none r.0 then some locator else none)))
  unfolding removed_locator is_none
  removed_flag locator done (some e, w) = ground arith
  removed_flag locator done (none, w) = ground arith

  create_checked_flag :
      (o : Option TableLocator) (chassis : TableChassis) (g : GatewayState W)
      → (create_checked db vnet_process_all vnet_remove_all route_nh_update o chassis
          g).1.gateway_init_done
        ≡ (g.gateway_init_done || is_local_row (stands o chassis g.world))
  unfolding create_checked stands
  create_checked_flag (some row) chassis g = ground arith
  create_checked_flag none chassis g =
      let locator =
        new_locator db vnet_process_all vnet_remove_all route_nh_update chassis g.world in
      let w1 = announce db vnet_process_all vnet_remove_all route_nh_update locator g.world in
      added_flag locator g.gateway_init_done (db.locator_add locator w1)

  remove_checked_flag :
      (o : Option TableLocator) (chassis : TableChassis) (g : GatewayState W)
      → (remove_checked db vnet_process_all vnet_remove_all route_nh_update o chassis.name
          g).1.gateway_init_done
        ≡ (g.gateway_init_done && not (is_local_row (deleted o chassis g.world)))
  unfolding remove_checked deleted
  remove_checked_flag none chassis g = ground arith
  remove_checked_flag (some row) chassis g = removed_flag row g.gateway_init_done _

  -- For a chassis with a name and an encapsulation, the gateway counts as initialised after a
  -- creation if it did before, or if the locator that then stands is local; after a removal it does
  -- if it did before and the locator that was deleted, if one was, is not local.
  pub gateway_init_done_lem :
      (chassis : TableChassis) (g : GatewayState W)
      → (length chassis.encaps == 0) ≡ false
      → (length chassis.name == 0) ≡ false
      → ((locator_create db vnet_process_all vnet_remove_all route_nh_update chassis
            g).1.gateway_init_done
          ≡ (g.gateway_init_done || is_local_row (stands_after chassis g.world)))
        × ((locator_remove db vnet_process_all vnet_remove_all route_nh_update chassis
              g).1.gateway_init_done
            ≡ (g.gateway_init_done && not (is_local_row (deleted_by chassis g.world))))
  unfolding locator_create locator_remove stands_after deleted_by
  gateway_init_done_lem chassis g e n = (
    rw (e, n, locator_create)
        (create_checked_flag (db.locator_get_by_index g.world chassis.name) chassis g),
    rw (n, locator_remove)
        (remove_checked_flag (db.locator_get_by_index g.world chassis.name) chassis g),
  )
