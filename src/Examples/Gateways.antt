-- ===== src/Examples/Gateways.antt =====
-- A gateway's sub-interface over a database of addresses, each with the name of its interface.
use govtep.Golang.Decimal.{itoa}
use govtep.Uninos.Databases.{TableAutoGatewayConf, Vtepdb, TableInterface, Configdb}
use govtep.Base.{
  ◌≡◌, refl, ◌⊎◌, Bool, false, not, ◌&&◌, ◌||◌, none, some, List, [], ◌∷◌, ◌++◌, if◌then◌else◌, Str,
  str, str_eq, text_laws,
}
use govtep.Uninos.Pbr.Sequence.{external_ip_process, eip_op_add}
use govtep.Uninos.Pbr.Sequence.Gateway.{
  Inside, sub_interface, address_after, AddressLaws, external_ip_process_lem,
}

abbrev gateway : TableAutoGatewayConf
gateway = record { physical_port = str "ep60"; vlan = 4; ip = str "10.0.0.12/24" }

abbrev Addresses : Type 0
Addresses = List (Str × Str)

has_address : Addresses → Str → Str → Bool
has_address [] n a = false
has_address ((name, ip) ∷ rows) n a = has_address rows n a || (str_eq n name && str_eq a ip)

without : Str → Str → Addresses → Addresses
without name ip [] = []
without name ip ((m, b) ∷ rows) =
    let rest = without name ip rows in if str_eq m name && str_eq b ip then rest else (m, b) ∷ rest

add_all : Str → List Str → Addresses → Addresses
add_all name [] w = w
add_all name (ip ∷ ips) w = add_all name ips ((name, ip) ∷ w)

del_all : Str → List Str → Addresses → Addresses
unfolding without
del_all name [] w = w
del_all name (ip ∷ ips) w = del_all name ips (without name ip w)

abbrev vtep_gateway : Vtepdb Addresses
vtep_gateway = record {
  external_ip_get_by_index = λ w index. none;
  external_ip_get = λ w vrf. [];
  external_ip_set_ref_count = λ index n w. (none, w);
  external_ip_set_sequence = λ index n w. (none, w);
  vrf_update_add_external_ips = λ vrf row w. (none, w);
  vrf_update_external_ips_delvalue = λ vrf uuid w. (none, w);
  auto_gateway_conf_get_by_index = λ w vrf. some gateway;
}

abbrev sub_port : TableInterface
sub_port = record { ip = str "10.0.0.12/24" ∷ [] }

abbrev addresses : Configdb Addresses
addresses = record {
  acl_get_by_index = λ w name. none;
  acl_add = λ row w. (none, w);
  acl_del_by_index = λ name w. (none, w);
  acl_set_ports = λ name ports w. (none, w);
  port_get_by_index = λ w name. none;
  interface_get_by_index = λ w name. some sub_port;
  interface_update_ip_addvalue = λ name ips w. (none, add_all name ips w);
  interface_update_ip_delvalue = λ name ips w. (none, del_all name ips w);
  acl_rule_get_by_index = λ w index. none;
  acl_update_add_rule_name = λ name row w. (none, w);
  acl_update_rule_name_delvalue = λ name uuid w. (none, w);
  ecmp_group_get_by_index = λ w id. none;
  ecmp_group_get_by_uuid = λ w uuid. none;
  ecmp_group_add = λ row w. (([], none), w);
  ecmp_group_del_by_uuid = λ uuid w. (none, w);
  ecmp_group_update_add_nexthop_group = λ id index w. (none, w);
  ecmp_group_update_nexthop_group_addvalue = λ id uuid w. (none, w);
  ecmp_group_update_nexthop_group_delvalue = λ id uuids w. (none, w);
  nexthop_get_by_index = λ w index. none;
}

-- A row that stays, and one that goes.
has_address-without :
    (name ip : Str) (w : Addresses) (n a : Str)
    → has_address (without name ip w) n a
      ≡ (has_address w n a && not (str_eq n name && str_eq a ip))
unfolding has_address without
has_address-without name ip [] n a = refl
has_address-without name ip ((m, b) ∷ rows) n a =
    grind (text_laws, has_address-without name ip rows n a)

addresses_laws : AddressLaws addresses has_address
unfolding has_address add_all del_all
addresses_laws = record {
  added = λ name ip n a w. refl;
  removed = λ name ip n a w. has_address-without name ip w n a;
}

-- 10.0.0.1 stands inside 10.0.0.12/24; 10.0.0.3 does not.
inside_kept :
    external_ip_process vtep_gateway addresses (str "10.0.0.1") (str "Vrf7") eip_op_add []
    ≡ (none, [])
unfolding external_ip_process
inside_kept = refl

outside_added :
    external_ip_process vtep_gateway addresses (str "10.0.0.3") (str "Vrf7") eip_op_add []
    ≡ (none, (str "ep60.4", str "10.0.0.3/32") ∷ [])
unfolding external_ip_process add_all itoa
outside_added = refl

external_ip_process_example :
    (Inside (str "10.0.0.3") gateway.ip
      × (external_ip_process vtep_gateway addresses (str "10.0.0.3") (str "Vrf7") eip_op_add []
          ≡ (none, [])))
    ⊎ ((¬ Inside (str "10.0.0.3") gateway.ip)
        × ((external_ip_process vtep_gateway addresses
              (str "10.0.0.3")
              (str "Vrf7")
              eip_op_add
              []).0
            ≡ none)
        × (has_address
              (external_ip_process vtep_gateway addresses
                (str "10.0.0.3")
                (str "Vrf7")
                eip_op_add
                []).1
              (str "ep60.4")
              (str "10.0.0.3/32")
            ≡ address_after eip_op_add (has_address [] (str "ep60.4") (str "10.0.0.3/32")) (
                str_eq (str "ep60.4") (sub_interface gateway)
                && str_eq (str "10.0.0.3/32") (str "10.0.0.3" ++ str "/32"))))
external_ip_process_example =
    external_ip_process_lem vtep_gateway addresses has_address addresses_laws (str "10.0.0.3")
      (str "Vrf7") eip_op_add gateway sub_port (str "ep60.4") (str "10.0.0.3/32") [] refl refl
