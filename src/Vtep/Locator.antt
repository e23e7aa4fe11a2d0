-- ===== src/Vtep/Locator.antt =====
-- go_vtep/locator.go: the locators of the VTEP database, one for each chassis, and the map from
-- remote addresses to router MACs that the local locators keep. The package variable
-- `GatewayInitDone` goes along with the world. Logging is left out, and rows come converted.
pub mod Rmac
pub mod Gateway
use govtep.Base.{
  Bool, true, false, not, ◌||◌, Option, none, some, List, [], ◌∷◌, ◌++◌, ◌==◌, if◌then◌else◌, Str,
  str_eq, length, Error, for_each, errorf,
}
use govtep.Vtep.Databases.{TableLocator, TableChassis, TablePhysicalSwitch, Locatordb}
use govtep.Vtep.Diff.{find, put}

pub record GatewayState (W : Type 0) : Type 0 where
  pub gateway_init_done : Bool
  pub world : W

-- `rmacMap[rip] = mac` for each address
pub map_ips : List Str → Str → List (Str × Str) → List (Str × Str)
unfolding put
map_ips [] mac m = m
map_ips (ip ∷ ips) mac m = map_ips ips mac (put ip mac m)

-- The loop over the locators that fills the map of a new local one.
pub remote_rmacs : List TableLocator → List (Str × Str) → List (Str × Str)
unfolding map_ips
remote_rmacs [] m = m
remote_rmacs (row ∷ rows) m =
    remote_rmacs rows (if row.local_locator then m else map_ips row.ipaddr row.route_mac m)

-- `vnet_process_all` and `vnet_remove_all` are `vnetProcessAll` and `vnetRemoveAll` of
-- go_vtep/vnet.go, `route_nh_update` is `routeNhUpdateForLocator` of go_vtep/route.go.
module _ {W : Type 0} (db : Locatordb W) (vnet_process_all vnet_remove_all : W → W)
    (route_nh_update : Str → Str → W → W) where
  -- Addresses and MAC of the encapsulations that are found; the MAC is that of the last.
  encaps_of : List Str → W → List Str × Str → List Str × Str
  encaps_of [] w acc = acc
  encaps_of (id ∷ ids) w (ips, mac) = elim (db.encap_get_by_uuid w id) [
    | none ↦ encaps_of ids w (ips, mac)
    | some encap ↦ encaps_of ids w (ips ++ (encap.ip ∷ []), encap.router_mac)
  ]

  is_local : Option TablePhysicalSwitch → Bool
  is_local none = false
  is_local (some ps) = ps.gateway_group || not ps.group_member

  set_rmac : TableLocator → Str → Str → W → W
  unfolding find
  set_rmac row mac ip w = elim (find ip row.rmac_map) [
    | none ↦ (db.locator_update_rmac_map_setkey row.chassis_name (ip, mac) w).1
    | some old ↦
        (db.locator_update_rmac_map_setkey row.chassis_name (ip, mac)
          (db.locator_update_rmac_map_delkey row.chassis_name (ip, old) w).1).1
  ]

  del_rmac : TableLocator → Str → W → W
  unfolding find
  del_rmac row ip w = elim (find ip row.rmac_map) [
    | none ↦ w
    | some mac ↦ (db.locator_update_rmac_map_delkey row.chassis_name (ip, mac) w).1
  ]

  for_each_local : (TableLocator → W → W) → W → W
  unfolding for_each
  for_each_local body w =
      for_each (db.locator_get w) (λ row w. if row.local_locator then body row w else w) w

  new_locator : TableChassis → W → TableLocator
  unfolding encaps_of is_local remote_rmacs
  new_locator chassis w =
      let (ips, mac) = encaps_of chassis.encaps w ([], []) in
      let local = is_local (db.physical_switch_get_by_index w chassis.name) in
      record {
        uuid = [];
        chassis_name = chassis.name;
        ipaddr = ips;
        route_mac = mac;
        local_locator = local;
        rmac_map = if local then remote_rmacs (db.locator_get w) [] else [];
      }

  -- A remote locator is first made known to the local ones.
  announce : TableLocator → W → W
  unfolding for_each_local set_rmac for_each
  announce locator w =
      if locator.local_locator
      then w
      else for_each_local (λ row. for_each locator.ipaddr (set_rmac row locator.route_mac)) w

  added_locator : TableLocator → Bool → Error × W → Error × GatewayState W
  added_locator locator done (some e, w) = (some e, record { gateway_init_done = done; world = w })
  added_locator locator done (none, w) =
      if locator.local_locator
      then (none, record { gateway_init_done = true; world = vnet_process_all w })
      else (none, record { gateway_init_done = done; world = w })

  create_checked : Option TableLocator → TableChassis → GatewayState W → Error × GatewayState W
  unfolding new_locator announce added_locator
  create_checked (some row) chassis g =
      if row.local_locator then (none, record g { gateway_init_done = true }) else (none, g)
  create_checked none chassis g =
      let locator = new_locator chassis g.world in
      added_locator locator g.gateway_init_done (db.locator_add locator (announce locator g.world))

  -- `locatorCreate`
  pub locator_create : TableChassis → GatewayState W → Error × GatewayState W
  unfolding create_checked
  locator_create chassis g =
      if length chassis.encaps == 0
      then (some (errorf "Chassis don't have encap, ignored"), g)
      else if length chassis.name == 0
      then (some (errorf "Get chassis name failed"), g)
      else create_checked (db.locator_get_by_index g.world chassis.name) chassis g

  -- A remote locator is taken out of the maps of the local ones.
  withdraw : TableLocator → W → W
  unfolding for_each_local del_rmac for_each
  withdraw locator w =
      if locator.local_locator
      then w
      else for_each_local (λ row. for_each locator.ipaddr (del_rmac row)) w

  removed_locator : TableLocator → Bool → Error × W → Error × GatewayState W
  removed_locator locator done (some e, w) =
      (some e, record { gateway_init_done = done; world = w })
  removed_locator locator done (none, w) =
      if locator.local_locator
      then (none, record { gateway_init_done = false; world = vnet_remove_all w })
      else (none, record { gateway_init_done = done; world = w })

  remove_checked : Option TableLocator → Str → GatewayState W → Error × GatewayState W
  unfolding withdraw removed_locator
  remove_checked none name g = (some (errorf "Locator %v not exist"), g)
  remove_checked (some locator) name g =
      removed_locator locator g.gateway_init_done
        (db.locator_del_by_index name (withdraw locator g.world))

  -- `locatorRemove`
  pub locator_remove : TableChassis → GatewayState W → Error × GatewayState W
  unfolding remove_checked
  locator_remove chassis g =
      if length chassis.name == 0
      then (some (errorf "Get chassis name failed"), g)
      else remove_checked (db.locator_get_by_index g.world chassis.name) chassis.name g

  -- The loop over the encapsulations of `locatorUpdateEncap`: addresses, MAC and world.
  update_macs : List Str → Str → List Str → Str → W → (List Str × Str) × W
  update_macs [] name ips mac w = ((ips, mac), w)
  update_macs (id ∷ ids) name ips mac w = elim (db.encap_get_by_uuid w id) [
    | none ↦ update_macs ids name ips mac w
    | some encap ↦ update_macs ids name (ips ++ (encap.ip ∷ [])) encap.router_mac (
        if str_eq mac encap.router_mac
        then w
        else (db.locator_set_route_mac name encap.router_mac w).1)
  ]

  -- Whether the addresses are new: by their number and the first of them, if there are any.
  ips_changed : List Str → List Str → Bool
  ips_changed [] [] = false
  ips_changed (old ∷ olds) (ip ∷ ips) = not (length olds == length ips) || not (str_eq old ip)
  ips_changed _ _ = true

  -- The old addresses go, the new ones come, in the maps of the local locators.
  move_rmacs : TableLocator → List Str → Str → W → W
  unfolding for_each_local del_rmac for_each
  move_rmacs locator ips mac w =
      if locator.local_locator
      then w
      else for_each_local
          (λ row w.
            for_each ips
              (λ ip w. (db.locator_update_rmac_map_setkey row.chassis_name (ip, mac) w).1)
              (for_each locator.ipaddr (del_rmac row) w))
          w

  update_ips : TableLocator → Str → (List Str × Str) × W → W
  unfolding ips_changed move_rmacs
  update_ips locator name (([], mac), w) = w
  update_ips locator name ((ip ∷ ips, mac), w) = move_rmacs locator (ip ∷ ips) mac (
      if ips_changed locator.ipaddr (ip ∷ ips)
      then route_nh_update locator.uuid ip (db.locator_set_ipaddr name (ip ∷ ips) w).1
      else w)

  update_found : Option TableLocator → TableChassis → W → W
  unfolding update_macs update_ips
  update_found none chassis w = w
  update_found (some locator) chassis w =
      update_ips locator chassis.name
        (update_macs chassis.encaps chassis.name [] locator.route_mac w)

  -- `locatorUpdateEncap`
  locator_update_encap : TableChassis → W → Error × W
  unfolding update_found
  locator_update_encap chassis w =
      if length chassis.encaps == 0
      then (some (errorf "Chassis don't have encap, ignored"), w)
      else (none, update_found (db.locator_get_by_index w chassis.name) chassis w)
