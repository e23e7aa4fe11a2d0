-- ===== src/Examples/Networks.antt =====
-- Networks, locators and names over small databases.
use govtep.Base.{
  ℕ, suc, ◌≤◌, ◌≡◌, refl, sym, ap, ◌∙◌, ◌≢◌, ◌⊎◌, Bool, true, false, not, ◌&&◌, ◌||◌, none, some,
  List, [], ◌∷◌, ◌++◌, arith, if◌then◌else◌, Str, str, str_eq, str_eq_iff, text_laws, or_absorbs,
  length, Error,
}
use govtep.Ovsdb.Rows.{delete}
use govtep.Vtep.Databases.{TableLocator, TableChassis, Locatordb}
use govtep.Vtep.Names.{bd_name_by_vni, vrf_name_by_vni}
use govtep.Vtep.Names.RoundTrip.{vni_by_name_lem}
use govtep.Vtep.Locator.{GatewayState, locator_create, locator_remove}
use govtep.Vtep.Locator.Gateway.{is_local_row, stands_after, deleted_by, gateway_init_done_lem}
use govtep.Vtep.Vnet.{TableDatapathBinding, Vnetdb, datapath_notify_update}
use govtep.Tai.Tunnel.{LocatorRow, TunnelObj, TunnelAttrs, row_to_tunnel_obj}
use govtep.Tai.Tunnel.Local.{HasTunnel, row_to_tunnel_obj_lem}
use govtep.Vtep.Vnet.Lifecycle.{
  NetworkLaws, is_switch, is_router, network_after, datapath_notify_update_lem,
}
use govtep.Uninos.Names.{vni_by_bd_name, vni_by_vrf_name}
use govtep.Uninos.Networks.{Networkdb, ensure_bridge, create_bridge, ensure_vrf, create_vrf}
use govtep.Uninos.Networks.Resume.{create_by_vni}
use govtep.Examples.Uninos.{vtepdb, config}
use govtep.Golang.Int.{pos}
use govtep.Golang.Decimal.{itoa}

vni_by_name_example :
    (vni_by_bd_name (bd_name_by_vni 10) ≡ some (pos 10))
    × (vni_by_vrf_name (vrf_name_by_vni 10) ≡ some (pos 10))
    × (bd_name_by_vni 10 ≢ vrf_name_by_vni 10)
vni_by_name_example = vni_by_name_lem 10 10 (omega arith)

abbrev remote : TableLocator
remote = record {
  uuid = str "l1";
  chassis_name = str "c1";
  ipaddr = str "1.1.1.1" ∷ [];
  route_mac = str "aa";
  local_locator = false;
  rmac_map = [];
}

-- The world counts the writes; every chassis is a gateway, and no locator is there.
abbrev count_write : ℕ → Error × ℕ
count_write w = (none, suc w)

abbrev locators : Locatordb ℕ
locators = record {
  encap_get_by_uuid = λ w id. some (record { ip = str "2.2.2.2"; router_mac = str "bb" });
  physical_switch_get_by_index =
      λ w name. some (record { gateway_group = true; group_member = true });
  locator_get_by_index = λ w name. none;
  locator_get = λ w. remote ∷ [];
  locator_add = λ row w. count_write w;
  locator_del_by_index = λ name w. count_write w;
  locator_set_route_mac = λ name mac w. count_write w;
  locator_set_ipaddr = λ name ips w. count_write w;
  locator_update_rmac_map_setkey = λ name entry w. count_write w;
  locator_update_rmac_map_delkey = λ name entry w. count_write w;
}

abbrev unchanged : ℕ → ℕ
unchanged w = w

abbrev no_route_update : Str → Str → ℕ → ℕ
no_route_update id ip w = w

abbrev chassis : TableChassis
chassis = record { name = str "c2"; encaps = str "e2" ∷ [] }

abbrev start : GatewayState ℕ
start = record { gateway_init_done = false; world = 0 }

gateway_init_done_example :
    ((locator_create locators unchanged unchanged no_route_update chassis start).1.gateway_init_done
      ≡ (false
          || is_local_row (stands_after locators unchanged unchanged no_route_update chassis 0)))
    × ((locator_remove locators unchanged unchanged no_route_update chassis
          start).1.gateway_init_done
        ≡ (false
            && not
                (is_local_row (deleted_by locators unchanged unchanged no_route_update chassis 0))))
gateway_init_done_example =
    gateway_init_done_lem locators unchanged unchanged no_route_update chassis start refl refl

-- A bridge and a VRF of every name are there, and no interface.
abbrev networks : Networkdb ℕ
networks = record {
  bridge_vni_min = 1;
  bridge_vni_max = 16777215;
  vrf_l3_vni_min = 1;
  vrf_l3_vni_max = 16777215;
  bridge_exists = λ w name. true;
  bridge_add = λ name vni w. count_write w;
  bridge_del_by_index = λ name w. count_write w;
  vrf_exists = λ w name. true;
  vrf_add = λ name vni w. ((str "v1", none), suc w);
  vrf_del_by_index = λ name w. count_write w;
  bd_interface_exists = λ w name. false;
  bd_interface_add = λ row w. count_write w;
  bd_interface_del_by_index = λ name w. count_write w;
  locator_get = λ w. [];
}

create_by_vni_example :
    (create_bridge vtepdb (config none none) networks (bd_name_by_vni 10) 0
      ≡ some (ensure_bridge vtepdb (config none none) networks (bd_name_by_vni 10) (pos 10) 0))
    × (create_vrf vtepdb (config none none) networks (vrf_name_by_vni 10) 0
        ≡ some (ensure_vrf vtepdb (config none none) networks (vrf_name_by_vni 10) (pos 10) 0))
create_by_vni_example = create_by_vni vtepdb (config none none) networks 10 0 (omega arith)

-- The names of the bridge domains and those of the VRFs: a name that is there is not added again.
abbrev Names : Type 0
Names = List Str × List Str

has_name : List Str → Str → Bool
has_name [] n = false
has_name (name ∷ names) n = has_name names n || str_eq n name

without_name : Str → List Str → List Str
without_name name [] = []
without_name name (m ∷ names) =
    let rest = without_name name names in if str_eq m name then rest else m ∷ rest

added_name : Str → List Str → List Str
unfolding has_name
added_name name names = if has_name names name then names else name ∷ names

abbrev vnets : Vnetdb Names
vnets = record {
  bridge_domain_exists = λ w n. has_name w.0 n;
  bridge_domain_add = λ row w. (none, (added_name row.name w.0, w.1));
  bridge_domain_del_by_index = λ name w. (none, (without_name name w.0, w.1));
  bridge_domain_uuids = λ w. [];
  bridge_domain_del_by_uuid = λ id w. (none, w);
  vrf_exists = λ w n. has_name w.1 n;
  vrf_add_row = λ row w. (none, (w.0, added_name row.name w.1));
  vrf_del_by_index = λ name w. (none, (w.0, without_name name w.1));
  vrf_uuids = λ w. [];
  vrf_del_by_uuid = λ id w. (none, w);
  vrf_update_add_gateway_conf = λ name port vrf w. (none, w);
  locator_uuids = λ w. [];
  locator_del_by_uuid = λ id w. (none, w);
}

has_name-without_name :
    (name : Str) (names : List Str) (n : Str)
    → has_name (without_name name names) n ≡ (has_name names n && not (str_eq n name))
unfolding has_name without_name
has_name-without_name name [] n = refl
has_name-without_name name (m ∷ names) n = grind (text_laws, has_name-without_name name names n)

has_name-added_name :
    (name : Str) (names : List Str) (n : Str)
    → has_name (added_name name names) n ≡ (has_name names n || str_eq n name)
unfolding added_name has_name
has_name-added_name name names n = by_presence (has_name names name) refl
  where
    by_presence :
        (found : Bool)
        → has_name names name ≡ found
        → has_name (if found then names else name ∷ names) n ≡ (has_name names n || str_eq n name)
    by_presence true e = sym (
        or_absorbs (has_name names n) (str_eq n name)
          (λ h. ap (has_name names) ((str_eq_iff n name).0 h) ∙ e))
    by_presence false e = refl

vnets_laws : NetworkLaws vnets
vnets_laws = record {
  bridge_added = λ row n w. has_name-added_name row.name w.0 n;
  bridge_removed = λ name n w. has_name-without_name name w.0 n;
  bridge_vrf_added = λ row n w. refl;
  bridge_vrf_removed = λ name n w. refl;
  bridge_gateway = λ name port vrf n w. refl;
  vrf_added = λ row n w. has_name-added_name row.name w.1 n;
  vrf_removed = λ name n w. has_name-without_name name w.1 n;
  vrf_bridge_added = λ row n w. refl;
  vrf_bridge_removed = λ name n w. refl;
  vrf_gateway = λ name port vrf n w. refl;
}

abbrev datapath : TableDatapathBinding
datapath = record { dp_uuid = str "d1"; tunnel_key = 5; ls_name = none; lr_name = some (str "lr1") }

abbrev some_names : Names
some_names = (str "Bd7" ∷ [], str "Vrf5" ∷ [])

datapath_notify_update_example :
    (has_name (datapath_notify_update vnets true delete datapath some_names).0 (str "Vrf5")
      ≡ network_after delete
          (has_name some_names.0 (str "Vrf5"))
          (true && (is_switch datapath && str_eq (str "Vrf5") (str "Bd" ++ itoa 5))))
    × (has_name (datapath_notify_update vnets true delete datapath some_names).1 (str "Vrf5")
        ≡ network_after delete
            (has_name some_names.1 (str "Vrf5"))
            (true && (is_router datapath && str_eq (str "Vrf5") (str "Vrf" ++ itoa 5))))
datapath_notify_update_example =
    datapath_notify_update_lem vnets vnets_laws true delete datapath (str "Vrf5") some_names

abbrev locator_row : LocatorRow Bool
locator_row = record {
  chassis_name = str "chassis-1";
  type = str "vxlan";
  ipaddr = str "1.1.1.1" ∷ [];
  local_locator = true;
  tunnel_key = pos 1;
  rmac_map = true;
}

row_to_tunnel_obj_example :
    ((obj : TunnelObj) × (attrs : TunnelAttrs Bool) × HasTunnel locator_row
      × (str "1.1.1.1" ∷ [] ≡ obj.ipaddr ∷ [])
      × (length obj.name ≤ 17)
      × (row_to_tunnel_obj locator_row (some true) [] ≡ (some (obj, attrs), obj.name)))
    ⊎ ((¬ HasTunnel locator_row) × (row_to_tunnel_obj locator_row (some true) [] ≡ (none, [])))
row_to_tunnel_obj_example = row_to_tunnel_obj_lem locator_row (some true) []
