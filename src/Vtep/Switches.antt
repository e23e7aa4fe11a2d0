-- ===== src/Vtep/Switches.antt =====
-- go_vtep/physical_switch.go: a physical switch of the VTEP database becomes a chassis of the OVN
-- southbound database, a switch of a gateway group a member of one. Logging is left out, and rows
-- come converted. What random bytes and the operating system give is an argument: a new identifier
-- or none, a name for a new row or none, and the name of the host.
pub mod Presence
pub mod Update
use govtep.Base.{
  Bool, true, false, not, Option, none, some, List, [], ◌∷◌, if◌then◌else◌, Str, str, str_eq,
  GoError, Error, errorf,
}
use govtep.Golang.Net.{parse_ip}
use govtep.Golang.Net.Mac.{is_mac}

pub record SwitchRow : Type 0 where
  pub uuid : Str
  pub name : Str
  pub system_id : Str
  pub encap_type : Str
  pub encap_ip : Str
  pub router_mac : Str
  pub gateway_group : Bool

pub record EncapRow : Type 0 where
  pub type : Str
  pub ip : Str
  pub router_mac : Str
  pub chassis_name : Str
  pub options : List (Str × Str)

pub record ChassisRow : Type 0 where
  pub name : Str
  pub hostname : Str
  pub encaps : List Str
  pub external_ids : List (Str × Str)
  pub other_config : List (Str × Str)
  pub hardware_gateway_chassis : List Str
  pub gateway_chassis_members : List Str

-- The insertions of a transaction; that of an encapsulation gives the row a name.
pub data SbInsert : Type 0 where
  insert_encap : Str → EncapRow → SbInsert
  insert_chassis : ChassisRow → SbInsert

-- The table functions of both databases. Chassis and locators go by the name of the chassis, switches
-- by their name, and an encapsulation by its type and address.
pub record Switchdb (W : Type 0) : Type 0 where
  pub physical_switch_set_fault_status : Str → Str → W → Error × W
  pub physical_switch_set : Str → SwitchRow → W → Error × W
  pub chassis_get_by_index : W → Str → Option ChassisRow
  pub chassis_del_by_index : Str → W → Error × W
  pub chassis_update_gateway_chassis_members_addvalue : Str → Str → W → Error × W
  pub chassis_update_gateway_chassis_members_delvalue : Str → Str → W → Error × W
  pub chassis_update_add_encaps : Str → EncapRow → W → Error × W
  pub chassis_update_encaps_delvalue : Str → Str → W → Error × W
  -- the identifier of the row
  pub encap_get_by_index : W → Str → Str → Option Str
  pub transact : List SbInsert → W → Error × W
  -- the column `local_locator`
  pub locator_get_by_index : W → Str → Option Bool
  pub locator_del_by_index : Str → W → Error × W
  pub physical_switch_chassis : Str
  pub physical_switch_group_chassis : Str

-- What a call gets from outside.
pub record Fresh : Type 0 where
  pub system_id : Option Str
  pub row_name : Option Str
  pub host : Option Str

abbrev pub vxlan : Str
vxlan = str "vxlan"

abbrev csum_off : List (Str × Str)
csum_off = (str "csum", str "false") ∷ []

abbrev iface_types : List (Str × Str)
iface_types = (str "iface-types", str "vxlan") ∷ []

unfoldable pub is_ip : Str → Bool
unfolding parse_ip
is_ip s = elim (parse_ip s) [ none ↦ false | some _ ↦ true ]

-- `checkPhysicalSwitchValid`, without the status that it sets: the status and the error.
unfoldable pub fault_of : SwitchRow → Option (Str × GoError)
unfolding is_ip is_mac
fault_of ps =
    if not (str_eq ps.encap_type vxlan)
    then some (str "unsuppoted encap type", errorf "encap type must be vxlan")
    else if not (is_ip ps.encap_ip)
    then some (str "invalid encap ip", errorf "invalid encap ip %s")
    else if not (is_mac ps.router_mac)
    then some (str "invalid route mac", errorf "invalid route mac %s")
    else none

host_or_empty : Option Str → Str
host_or_empty none = []
host_or_empty (some host) = host

module _ {W : Type 0} (db : Switchdb W) where
  set_fault : Str → Option (Str × GoError) → W → Error × W
  set_fault name none w = (none, w)
  set_fault name (some (status, e)) w =
      (some e, (db.physical_switch_set_fault_status name status w).1)

  -- `checkPhysicalSwitchValid`
  unfoldable pub check_physical_switch_valid : SwitchRow → W → Error × W
  unfolding set_fault fault_of
  check_physical_switch_valid ps w = set_fault ps.name (fault_of ps) w

  -- The chassis and the encapsulation of a switch.
  unfoldable pub chassis_of : SwitchRow → Option Str → ChassisRow
  unfolding host_or_empty
  chassis_of ps host = record {
    name = ps.system_id;
    hostname = host_or_empty host;
    encaps = [];
    external_ids = iface_types;
    other_config = iface_types;
    hardware_gateway_chassis =
        if ps.gateway_group
        then db.physical_switch_group_chassis ∷ []
        else db.physical_switch_chassis ∷ [];
    gateway_chassis_members = if ps.gateway_group then ps.uuid ∷ [] else [];
  }

  unfoldable pub encap_of : SwitchRow → EncapRow
  encap_of ps = record {
    type = vxlan;
    ip = ps.encap_ip;
    router_mac = ps.router_mac;
    chassis_name = ps.system_id;
    options = csum_off;
  }

  -- Adding the chassis, with the encapsulation that is there or a new one.
  insert_with : Option Str → Option Str → ChassisRow → EncapRow → W → Error × W
  insert_with (some encap) name chassis encap_row w =
      db.transact (insert_chassis (record chassis { encaps = encap ∷ [] }) ∷ []) w
  insert_with none none chassis encap w = (some (errorf "uuid"), w)
  insert_with none (some name) chassis encap w =
      db.transact
        (insert_encap name encap ∷ insert_chassis (record chassis { encaps = name ∷ [] }) ∷ []) w

  insert_unless : Option ChassisRow → Option Str → ChassisRow → EncapRow → W → Error × W
  unfolding insert_with
  insert_unless (some _) name chassis encap w = (some (errorf "Chassis %s exist"), w)
  insert_unless none name chassis encap w =
      insert_with (db.encap_get_by_index w encap.type encap.ip) name chassis encap w

  -- `chassisCreate`, with the name for a new row
  unfoldable pub chassis_create : Option Str → ChassisRow → EncapRow → W → Error × W
  unfolding insert_unless
  chassis_create name chassis encap w =
      insert_unless (db.chassis_get_by_index w chassis.name) name chassis encap w

  -- A locator that is not a local one is removed.
  drop_remote : Str → Option Bool → W → W
  drop_remote name (some false) w = (db.locator_del_by_index name w).1
  drop_remote name (some true) w = w
  drop_remote name none w = w

  join : SwitchRow → W → W
  unfolding drop_remote
  join ps w =
      let w1 = (db.chassis_update_gateway_chassis_members_addvalue ps.system_id ps.uuid w).1 in
      drop_remote ps.system_id (db.locator_get_by_index w1 ps.system_id) w1

  join_or_add : Option ChassisRow → Fresh → SwitchRow → W → W
  unfolding join chassis_create chassis_of encap_of
  join_or_add (some _) fresh ps w = if ps.gateway_group then join ps w else w
  join_or_add none fresh ps w =
      (chassis_create fresh.row_name (chassis_of ps fresh.host) (encap_of ps) w).1

  -- A new system identifier comes back as an update of the row.
  identify : Option Str → SwitchRow → W → W
  identify none ps w = w
  identify (some id) ps w = (db.physical_switch_set ps.name (record ps { system_id = id }) w).1

  create_valid : Fresh → SwitchRow → W → W
  unfolding identify join_or_add
  create_valid fresh ps w =
      if str_eq ps.system_id []
      then identify fresh.system_id ps w
      else join_or_add (db.chassis_get_by_index w ps.system_id) fresh ps w

  create_checked : Fresh → SwitchRow → Error × W → W
  unfolding create_valid
  create_checked fresh ps (some e, w) = w
  create_checked fresh ps (none, w) =
      create_valid fresh ps (db.physical_switch_set_fault_status ps.name [] w).1

  -- `physicalSwitchCreate`
  unfoldable pub physical_switch_create : Fresh → SwitchRow → W → W
  unfolding create_checked check_physical_switch_valid
  physical_switch_create fresh ps w = create_checked fresh ps (check_physical_switch_valid ps w)

  deleted_or : Error × W → Error × W
  deleted_or (some _, w) = (some (errorf "Chassis %s delete failed"), w)
  deleted_or (none, w) = (none, w)

  delete_found : Option ChassisRow → Str → W → Error × W
  unfolding deleted_or
  delete_found none name w = (some (errorf "Chassis %s not exist"), w)
  delete_found (some _) name w = deleted_or (db.chassis_del_by_index name w)

  -- `chassisDelete`
  unfoldable pub chassis_delete : Str → W → Error × W
  unfolding delete_found
  chassis_delete name w = delete_found (db.chassis_get_by_index w name) name w
