-- ===== src/Vtep/Ports/Events.antt =====
-- The notifications of port bindings in go_vtep/port.go: `portbindingNotifyUpdate` and the handlers
-- that it calls. Errors are only logged there. `none` is a panic.
pub mod Cache
pub mod Macs
pub mod Moved
use govtep.Base.{
  Bool, true, false, not, ◌||◌, Option, none, some, List, [], ◌∷◌, if◌then◌else◌, Str, str, str_eq,
  Error, ◌>>=◌,
}
use govtep.Ovsdb.Rows.{Op, insert, mutate, delete, select_op, update, no_op}
use govtep.Vtep.Diff.{find, put, diff_ops}
use govtep.Vtep.Ports.Databases.{Portdb, TablePortBinding, TableGatewayChassis, Bindingdb}
use govtep.Vtep.Ports.Fdb.{remote_fdb_update}
use govtep.Vtep.Ports.Info.{
  PortInfo, ProcBranch, define_port_proc_branch, lsp_ac_remote, lsp_localnet,
}
use govtep.Vtep.Ports.Address.{address_parser}
use govtep.Vtep.Ports.Lookup.{or_empty}
use govtep.Vtep.Ports.Parser.{option_value, pb_option_physical_switch, portbinding_parser}
use govtep.Vtep.Ports.Localnet.{portbinding_update_local_net}
use govtep.Vtep.Ports.Branches.{create_port, remove_port, create_new_port}
use govtep.Vtep.Ports.State.{PortState, remove_key, same_branch, type_of, info_of, set_port}

-- The old value of the column `mac`: a string, the strings of a set, or a value of another type.
pub data OldMac : Type 0 where
  one_mac : Str → OldMac
  mac_set : List Str → OldMac
  other_mac : OldMac

-- A field of the old row; the old chassis is only logged.
pub data OldField : Type 0 where
  old_type : Str → OldField
  old_mac : OldMac → OldField
  old_chassis : OldField
  old_options : List (Str × Str) → OldField
  other_field : OldField

unfoldable pub old_addresses : OldMac → List Str
old_addresses (one_mac s) = s ∷ []
old_addresses (mac_set s) = s
old_addresses other_mac = []

keep_world : {W : Type 0} → PortState W → Option (Error × W) → Option (PortState W)
keep_world s none = none
keep_world s (some (e, w)) = some (record s { world = w })

module _ {W : Type 0} (sb : Bindingdb W) (db : Portdb W) (pbr_nh_update : W → W) where
  -- What follows where the branch has changed: the port that is cached goes, the new one comes.
  replace_port : Str → PortInfo → ProcBranch → PortState W → Option (PortState W)
  unfolding type_of info_of set_port remove_port create_port
  replace_port k port proc s = do
    removed ← remove_port sb db pbr_nh_update (type_of k s) (info_of k s) s.world
    created ← create_port sb db pbr_nh_update proc port removed
    some (set_port k port proc (record s { world = created }))

  -- `portbindingUpdatePortBranch`
  unfoldable pub portbinding_update_port_branch :
      TablePortBinding → Str → PortState W → Option (PortState W)
  unfolding replace_port portbinding_parser define_port_proc_branch type_of same_branch
  portbinding_update_port_branch row k s =
      let (port, w) = portbinding_parser sb db row s.world in
      let proc = define_port_proc_branch port in
      let s' : PortState W = record s { world = w } in
      if same_branch (type_of k s) proc then some s' else replace_port k port proc s'

  enter_port :
      Option PortInfo → TablePortBinding → Str → PortInfo → PortState W → Option (PortState W)
  unfolding portbinding_update_port_branch set_port define_port_proc_branch
  enter_port none row k port s = some (set_port k port (define_port_proc_branch port) s)
  enter_port (some _) row k port s = portbinding_update_port_branch row k s

  -- `portbindingCreate`
  unfoldable pub portbinding_create : TablePortBinding → Str → PortState W → Option (PortState W)
  unfolding enter_port portbinding_parser define_port_proc_branch find create_new_port
  portbinding_create row k s = do
    let (port, w) = portbinding_parser sb db row s.world
    entered ← enter_port (find k s.port_info_map) row k port (record s { world = w })
    created ← create_new_port sb db pbr_nh_update (define_port_proc_branch port) port entered.world
    some (record entered { world = created })

  forget_port : Option PortInfo → Str → PortState W → Option (PortState W)
  unfolding remove_port define_port_proc_branch remove_key
  forget_port none k s = some s
  forget_port (some port) k s = do
    removed ← remove_port sb db pbr_nh_update (define_port_proc_branch port) port s.world
    some (record {
      port_info_map = remove_key k s.port_info_map;
      port_type = remove_key k s.port_type;
      world = removed;
    })

  -- `portbindingRemove`, which does not read the row
  unfoldable pub portbinding_remove : Str → PortState W → Option (PortState W)
  unfolding forget_port find
  portbinding_remove k s = forget_port (find k s.port_info_map) k s

  -- What is removed is made from the new row, like what is created.
  update_chassis_to : PortInfo → W → Str → PortState W → Option (PortState W)
  unfolding define_port_proc_branch type_of same_branch remove_port create_port set_port put
  update_chassis_to port w k s =
      let proc = define_port_proc_branch port in
      if same_branch (type_of k s) proc
      then some (record s { port_info_map = put k port s.port_info_map; world = w })
      else do
        removed ← remove_port sb db pbr_nh_update (type_of k s) port w
        created ← create_port sb db pbr_nh_update proc port removed
        some (set_port k port proc (record s { world = created }))

  -- `portbindingUpdateChassis`
  unfoldable pub portbinding_update_chassis :
      TablePortBinding → Str → PortState W → Option (PortState W)
  unfolding portbinding_parser update_chassis_to
  portbinding_update_chassis row k s =
      let (port, w) = portbinding_parser sb db row s.world in update_chassis_to port w k s

  local_net_if : Bool → PortInfo → PortState W → Option (PortState W)
  unfolding keep_world
  local_net_if true port s = keep_world s (portbinding_update_local_net sb db port s.world)
  local_net_if false port s = some s

  -- `portbindingUpdateType`
  portbinding_update_type : TablePortBinding → Str → PortState W → Option (PortState W)
  unfolding portbinding_parser define_port_proc_branch same_branch local_net_if
  portbinding_update_type row old s =
      let (port, w) = portbinding_parser sb db row s.world in
      local_net_if
        (str_eq old (str "localnet") || same_branch (define_port_proc_branch port) lsp_localnet)
        port (record s { world = w })

  -- `portbindingUpdateMac`
  unfoldable pub portbinding_update_mac :
      TablePortBinding → OldMac → Str → PortState W → PortState W
  unfolding portbinding_parser define_port_proc_branch same_branch set_port old_addresses
      address_parser diff_ops
  portbinding_update_mac row old k s =
      let (port, w) = portbinding_parser sb db row s.world in
      let proc = define_port_proc_branch port in
      let ops = diff_ops (address_parser (old_addresses old)).macs (address_parser row.mac).macs in
      if same_branch proc lsp_ac_remote
      then set_port k port proc
          (record s { world = remote_fdb_update db port.bd port.locator ops w })
      else record s { world = w }

  bind_chassis : Option TableGatewayChassis → Str → W → W
  bind_chassis none lp w = w
  bind_chassis (some row) lp w = (sb.port_binding_set_chassis lp row.chassis_uuid w).1

  unbind_chassis : Option TableGatewayChassis → Str → W → W
  unbind_chassis none lp w = w
  unbind_chassis (some row) lp w =
      (sb.port_binding_update_chassis_delvalue lp (row.chassis_uuid ∷ []) w).1

  chassis_of_switch : Option Str → W → Option TableGatewayChassis
  chassis_of_switch none w = none
  chassis_of_switch (some system_id) w = sb.chassis_get_by_index w system_id

  -- `portbindingUpdateOptionsPS`: the new switch, or else the old one
  portbinding_update_options_ps : Str → Str → Str → W → W
  unfolding bind_chassis unbind_chassis chassis_of_switch
  portbinding_update_options_ps new old lp w =
      if not (str_eq new [])
      then bind_chassis (chassis_of_switch (sb.physical_switch_get_by_index w new) w) lp w
      else if not (str_eq old [])
      then unbind_chassis (chassis_of_switch (sb.physical_switch_get_by_index w old) w) lp w
      else w

  -- `portbindingUpdateOptions`
  portbinding_update_options : TablePortBinding → List (Str × Str) → W → W
  unfolding portbinding_update_options_ps find or_empty option_value
  portbinding_update_options row old w =
      portbinding_update_options_ps (or_empty (option_value pb_option_physical_switch row))
        (or_empty (find pb_option_physical_switch old)) row.logical_port w

  -- One field of `portbindingUpdate`
  update_field : TablePortBinding → OldField → Str → PortState W → Option (PortState W)
  unfolding portbinding_update_type portbinding_update_mac portbinding_update_chassis
      portbinding_update_options
  update_field row (old_type old) k s = portbinding_update_type row old s
  update_field row (old_mac old) k s = some (portbinding_update_mac row old k s)
  update_field row old_chassis k s = portbinding_update_chassis row k s
  update_field row (old_options old) k s =
      some (record s { world = portbinding_update_options row old s.world })
  update_field row other_field k s = some s

  update_fields : TablePortBinding → List OldField → Str → PortState W → Option (PortState W)
  unfolding update_field
  update_fields row [] k s = some s
  update_fields row (field ∷ fields) k s = do
    updated ← update_field row field k s
    update_fields row fields k updated

  -- `portbindingUpdate`
  unfoldable pub portbinding_update :
      TablePortBinding → List OldField → Str → PortState W → Option (PortState W)
  unfolding update_fields portbinding_update_port_branch
  portbinding_update row fields k s = do
    updated ← update_fields row fields k s
    portbinding_update_port_branch row k updated

  -- `portbindingNotifyUpdate`, by `GatewayInitDone` and the operation
  unfoldable pub portbinding_notify_update :
      Bool → Op → TablePortBinding → List OldField → Str → PortState W → Option (PortState W)
  unfolding portbinding_create portbinding_remove portbinding_update
  portbinding_notify_update false op row fields k s = some s
  portbinding_notify_update true insert row fields k s = portbinding_create row k s
  portbinding_notify_update true delete row fields k s = portbinding_remove k s
  portbinding_notify_update true update row fields k s = portbinding_update row fields k s
  portbinding_notify_update true mutate row fields k s = some s
  portbinding_notify_update true select_op row fields k s = some s
  portbinding_notify_update true no_op row fields k s = some s
