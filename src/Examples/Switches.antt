-- ===== src/Examples/Switches.antt =====
-- Databases of chassis and of encapsulations, at which the theorems on go_vtep/physical_switch.go
-- apply.
use govtep.Golang.Net.{parse_ip}
use govtep.Base.{
  ◌≡◌, refl, sym, ap, ◌∙◌, Bool, true, false, not, ◌&&◌, ◌||◌, Option, none, some, List, [], ◌∷◌,
  ◌++◌, map, if◌then◌else◌, Str, str, str_eq, text_laws, Error, errorf,
}
use govtep.Vtep.Switches.{
  SwitchRow, EncapRow, ChassisRow, SbInsert, Switchdb, Fresh, vxlan, is_ip, encap_of,
  physical_switch_create, insert_encap, insert_chassis,
}
use govtep.Vtep.Switches.Presence.{
  is_there, has_chassis, ChassisLaws, has_identity, physical_switch_create_lem,
}
use govtep.Vtep.Locator.{GatewayState}
use govtep.Vtep.Switches.Update.{
  NewRow, physical_switch_remove, physical_switch_update_encap_ip, physical_switch_update_route_mac,
  physical_switch_update, old_router_mac,
}
use govtep.Vtep.Switches.Update.Removal.{takes_chassis, group_members, physical_switch_remove_lem}
use govtep.Vtep.Switches.Update.Encaps.{
  is_found, has_encap, is_error, without_id, physical_switch_update_route_mac_refused,
  physical_switch_update_encap_ip_lem, EncapLaws,
}

abbrev leaf : SwitchRow
leaf = record {
  uuid = str "u1";
  name = str "leaf";
  system_id = str "s1";
  encap_type = str "vxlan";
  encap_ip = str "10.0.0.1";
  router_mac = str "00:11:22:33:44:55";
  gateway_group = false;
}

abbrev grouped : SwitchRow
grouped = record leaf { gateway_group = true }

abbrev fresh : Fresh
fresh = record { system_id = none; row_name = some (str "row1"); host = some (str "host") }

-- A database of which only the names of chassis count; each has two members.
named : List Str → Str → Bool
named [] n = false
named (x ∷ xs) n = named xs n || str_eq n x

unnamed : Str → List Str → List Str
unnamed n [] = []
unnamed n (x ∷ xs) = if str_eq x n then unnamed n xs else x ∷ unnamed n xs

abbrev pair_of : Str → ChassisRow
pair_of n = record {
  name = n;
  hostname = [];
  encaps = [];
  external_ids = [];
  other_config = [];
  hardware_gateway_chassis = [];
  gateway_chassis_members = str "u1" ∷ str "u2" ∷ [];
}

insert_names : List SbInsert → List Str → List Str
insert_names [] w = w
insert_names (insert_encap name e ∷ ops) w = insert_names ops w
insert_names (insert_chassis c ∷ ops) w = insert_names ops (c.name ∷ w)

abbrev names_db : Switchdb (List Str)
unfolding named unnamed insert_names
names_db = record {
  physical_switch_set_fault_status = λ s status w. (none, w);
  physical_switch_set = λ s ps w. (none, w);
  chassis_get_by_index = λ w n. if named w n then some (pair_of n) else none;
  chassis_del_by_index = λ n w. (none, unnamed n w);
  chassis_update_gateway_chassis_members_addvalue = λ c m w. (none, w);
  chassis_update_gateway_chassis_members_delvalue = λ c m w. (none, w);
  chassis_update_add_encaps = λ c e w. (none, w);
  chassis_update_encaps_delvalue = λ c e w. (none, w);
  encap_get_by_index = λ w t ip. none;
  transact = λ ops w. (none, insert_names ops w);
  locator_get_by_index = λ w n. some false;
  locator_del_by_index = λ n w. (none, w);
  physical_switch_chassis = str "ps";
  physical_switch_group_chassis = str "psg";
}

has_chassis-named : (w : List Str) (n : Str) → has_chassis names_db w n ≡ named w n
unfolding has_chassis is_there names_db
has_chassis-named w n = there (named w n)
  where
    there : (b : Bool) → is_there (if b then some (pair_of n) else none) ≡ b
    there true = refl
    there false = refl

named-unnamed : (c n : Str) (w : List Str) → named (unnamed c w) n ≡ (named w n && not (str_eq n c))
unfolding named unnamed
named-unnamed c n [] = refl
named-unnamed c n (x ∷ w) = grind (text_laws, named-unnamed c n w)

has_chassis-insert :
    (c : ChassisRow) (n : Str) (w : List Str)
    → has_chassis names_db (c.name ∷ w) n ≡ (has_chassis names_db w n || str_eq n c.name)
unfolding named
has_chassis-insert c n w =
    has_chassis-named (c.name ∷ w) n ∙ ap (λ b. b || str_eq n c.name) (sym (has_chassis-named w n))

names_laws : ChassisLaws names_db
unfolding names_db insert_names
names_laws = record {
  set_fault = λ s status n w. refl;
  set_switch = λ s ps n w. refl;
  add_member = λ c m n w. refl;
  del_member = λ c m n w. refl;
  del_locator = λ c n w. refl;
  insert_one = has_chassis-insert;
  insert_both = λ name e c n w. has_chassis-insert c n w;
  del_chassis = λ c n w.
      has_chassis-named (unnamed c w) n
      ∙ named-unnamed c n w
      ∙ ap (λ b. b && not (str_eq n c)) (sym (has_chassis-named w n));
}

physical_switch_create_example :
    has_chassis names_db (physical_switch_create names_db fresh leaf (str "s2" ∷ [])) (str "s1") ≡ (
      has_chassis names_db (str "s2" ∷ []) (str "s1")
      || (has_identity leaf && str_eq (str "s1") leaf.system_id))
physical_switch_create_example =
    physical_switch_create_lem names_db names_laws fresh (str "row1") leaf (str "s2" ∷ [])
      (str "s1") refl

abbrev two_chassis : GatewayState (List Str)
two_chassis = record { gateway_init_done = true; world = str "s1" ∷ str "s2" ∷ [] }

physical_switch_remove_example :
    has_chassis names_db
      (physical_switch_remove names_db (λ w. w) grouped two_chassis).world
      (str "s1")
    ≡ (has_chassis names_db two_chassis.world (str "s1")
        && not (
            takes_chassis grouped (group_members names_db two_chassis.world grouped)
            && str_eq (str "s1") grouped.system_id))
physical_switch_remove_example =
    physical_switch_remove_lem names_db names_laws (λ w. w) (λ w n. refl) grouped two_chassis
      (str "s1")

-- A database of the encapsulations of one chassis.
id_of : Str → Str → List (Str × EncapRow) → Option Str
id_of t ip [] = none
id_of t ip ((id, e) ∷ rows) = if str_eq e.type t && str_eq e.ip ip then some id else id_of t ip rows

insert_unless_found : Bool → EncapRow → List (Str × EncapRow) → Error × List (Str × EncapRow)
insert_unless_found true e rows = (some (errorf "constraint violation"), rows)
insert_unless_found false e rows = (none, rows ++ ((str "new", e) ∷ []))

abbrev encaps_db : Switchdb (List (Str × EncapRow))
unfolding id_of insert_unless_found without_id
encaps_db = record {
  physical_switch_set_fault_status = λ s status w. (none, w);
  physical_switch_set = λ s ps w. (none, w);
  chassis_get_by_index = λ w n. some (record (pair_of n) { encaps = map (λ r. r.0) w });
  chassis_del_by_index = λ n w. (none, []);
  chassis_update_gateway_chassis_members_addvalue = λ c m w. (none, w);
  chassis_update_gateway_chassis_members_delvalue = λ c m w. (none, w);
  chassis_update_add_encaps = λ c e w. insert_unless_found (is_found (id_of e.type e.ip w)) e w;
  chassis_update_encaps_delvalue = λ c id w. (none, without_id id w);
  encap_get_by_index = λ w t ip. id_of t ip w;
  transact = λ ops w. (none, w);
  locator_get_by_index = λ w n. some false;
  locator_del_by_index = λ n w. (none, w);
  physical_switch_chassis = str "ps";
  physical_switch_group_chassis = str "psg";
}

encaps_laws : EncapLaws encaps_db (λ w name. w) (λ w. str "new")
unfolding encaps_db insert_unless_found is_found
encaps_laws = record {
  listed = λ name c w h. some_map c w name h;
  refused = λ name e w h. ap (λ b. insert_unless_found b e w) h;
  added = λ name e w h. ap (λ b. (insert_unless_found b e w).0) h;
  rows-added = λ name e w h. ap (λ b. (insert_unless_found b e w).1) h;
  removed = λ name id w. refl;
  rows-removed = λ name id w. refl;
}
  where
    encaps_or : Option ChassisRow → List Str
    encaps_or none = []
    encaps_or (some c) = c.encaps

    some_map :
        (c : ChassisRow) (w : List (Str × EncapRow)) (name : Str)
        → some (record (pair_of name) { encaps = map (λ r. r.0) w }) ≡ some c
        → c.encaps ≡ map (λ r. r.0) w
    some_map c w name h = sym (ap encaps_or h)

abbrev old_encap : EncapRow
old_encap = record {
  type = vxlan;
  ip = str "10.0.0.1";
  router_mac = str "00:00:00:00:00:01";
  chassis_name = str "s1";
  options = [];
}

old_encap-there : has_encap encaps_db ((str "e1", old_encap) ∷ []) (str "10.0.0.1") ≡ true
unfolding has_encap is_found encaps_db str_eq id_of
old_encap-there = refl

abbrev leaf_row : NewRow
leaf_row = record { table = leaf; system_id_field = some (str "s1") }

physical_switch_update_route_mac_example :
    (is_error
        (physical_switch_update_route_mac encaps_db fresh leaf
          (str "00:00:00:00:00:01")
          ((str "e1", old_encap) ∷ [])).0
      ≡ true)
    × ((physical_switch_update_route_mac encaps_db fresh leaf
          (str "00:00:00:00:00:01")
          ((str "e1", old_encap) ∷ [])).1
        ≡ (str "e1", old_encap) ∷ [])
    × (physical_switch_update encaps_db
          (λ f. fresh)
          leaf_row
          (old_router_mac (str "00:00:00:00:00:01") ∷ [])
          ((str "e1", old_encap) ∷ [])
        ≡ (str "e1", old_encap) ∷ [])
physical_switch_update_route_mac_example =
    physical_switch_update_route_mac_refused encaps_db (λ w name. w) (λ w. str "new") encaps_laws
      (λ f. fresh) leaf_row (str "00:00:00:00:00:01") [] ((str "e1", old_encap) ∷ []) leaf_id
      old_encap-there
  where
    leaf_id : str_eq leaf.system_id [] ≡ false
    leaf_id = unfold str_eq in refl

abbrev moved : SwitchRow
moved = record leaf { encap_ip = str "10.0.0.2" }

new_ip_free : has_encap encaps_db ((str "e1", old_encap) ∷ []) (str "10.0.0.2") ≡ false
unfolding has_encap is_found encaps_db str_eq id_of
new_ip_free = refl

new_ip_valid : is_ip (str "10.0.0.2") ≡ true
unfolding is_ip parse_ip
new_ip_valid = refl

physical_switch_update_encap_ip_example :
    ((physical_switch_update_encap_ip encaps_db fresh moved
        (str "10.0.0.1")
        ((str "e1", old_encap) ∷ [])).0
      ≡ none)
    × ((physical_switch_update_encap_ip encaps_db fresh moved
          (str "10.0.0.1")
          ((str "e1", old_encap) ∷ [])).1
        ≡ (str "new", encap_of encaps_db moved) ∷ [])
unfolding str_eq encaps_db
physical_switch_update_encap_ip_example =
    physical_switch_update_encap_ip_lem encaps_db (λ w name. w) (λ w. str "new") encaps_laws fresh
      (record (pair_of (str "s1")) { encaps = str "e1" ∷ [] }) (str "e1") old_encap moved
      (str "10.0.0.1") ((str "e1", old_encap) ∷ []) refl refl refl new_ip_free refl new_ip_valid
