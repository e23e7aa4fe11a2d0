-- ===== src/Vtep/Acl.antt =====
-- go_vtep/acl.go: ACLs of the OVN northbound database at ports of local switches become ACLs of the
-- VTEP database. Logging is left out. A panic of an index out of range is `none`.
pub mod Match
pub mod Rule
use govtep.Base.{
  Bool, false, ◌||◌, Option, none, some, List, [], ◌∷◌, if◌then◌else◌, Str, str, str_eq, Error,
}
use govtep.Golang.Int.{ℤ}
use govtep.Golang.Text.{contains}
use govtep.Vtep.Acl.Match.{str_parse_to_acl_field, field_value}
use govtep.Vtep.Acl.Rule.{TableAclRule, rule_of}

-- `from-lport`, `to-lport` or another value
pub data Direction : Type 0 where
  from_lport to_lport other_direction : Direction

pub record TableNbAcl : Type 0 where
  pub match : Str
  pub direction : Direction
  pub name : List Str
  pub priority : ℤ
  pub action : Str

pub data Stage : Type 0 where
  ingress egress : Stage

pub record TableAcl : Type 0 where
  pub name : Str
  pub ports : Str
  pub stage : Stage

-- The table functions; `chassis_of_port` is the column `chassis` of a port binding.
pub record Acldb (W : Type 0) : Type 0 where
  pub chassis_of_port : W → Str → Option (List Str)
  pub chassis_name : W → Str → Option Str
  -- by `system_id`
  pub physical_switch_exists : W → Str → Bool
  -- by logical port
  pub l2port_exists : W → Str → Bool
  pub acl_add : TableAcl → W → Error × W
  pub acl_update_add_acl_rules : Str → TableAclRule → W → Error × W
  pub acl_del_by_index : Str → W → Error × W

-- The ACL's port, by its direction.
port_by_direction : Direction → Str → Str → Option Str
port_by_direction from_lport inport outport = if str_eq inport [] then none else some inport
port_by_direction to_lport inport outport = if str_eq outport [] then none else some outport
port_by_direction other_direction inport outport = none

match_port : TableNbAcl → Option Str
unfolding port_by_direction field_value str_parse_to_acl_field
match_port acl =
    let fields = str_parse_to_acl_field acl.match in
    port_by_direction acl.direction (field_value (str "inport") fields)
      (field_value (str "outport") fields)

stage_of : Direction → Stage
stage_of from_lport = ingress
stage_of to_lport = egress
stage_of other_direction = egress

names_port : TableNbAcl → Bool
unfolding contains
names_port acl = contains acl.match (str "inport") || contains acl.match (str "outport")

module _ {W : Type 0} (db : Acldb W) where
  add_rule : Option TableAclRule → Str → TableNbAcl → W → W
  add_rule none name acl w = w
  add_rule (some rule) name acl w =
      (db.acl_update_add_acl_rules name
        (record rule { acl_name = name; sequence = acl.priority; action = acl.action }) w).1

  acl_added : Str → TableNbAcl → Error × W → W
  unfolding add_rule rule_of str_parse_to_acl_field
  acl_added name acl (some e, w) = w
  acl_added name acl (none, w) = add_rule (rule_of (str_parse_to_acl_field acl.match)) name acl w

  add_named : List Str → Str → TableNbAcl → W → W
  unfolding acl_added stage_of
  add_named [] port acl w = w
  add_named (name ∷ _) port acl w =
      acl_added name acl
        (db.acl_add (record { name = name; ports = port; stage = stage_of acl.direction }) w)

  -- The chassis of a port is that of a local switch.
  on_switch : Option Str → W → Bool
  on_switch none w = false
  on_switch (some name) w = db.physical_switch_exists w name

  is_bound : Option (List Str) → W → Bool
  unfolding on_switch
  is_bound none w = false
  is_bound (some []) w = false
  is_bound (some (uuid ∷ _)) w = on_switch (db.chassis_name w uuid) w

  create_at : Option Str → TableNbAcl → W → W
  unfolding is_bound add_named
  create_at none acl w = w
  create_at (some port) acl w =
      if is_bound (db.chassis_of_port w port) w then add_named acl.name port acl w else w

  -- The log line of an ACL without a port indexes the ACL's names.
  without_port : List Str → W → Option W
  without_port [] w = none
  without_port (_ ∷ _) w = some w

  -- `aclCreate`; its error is always nil
  unfoldable pub acl_create : TableNbAcl → W → Option W
  unfolding names_port without_port create_at match_port
  acl_create acl w =
      if names_port acl then some (create_at (match_port acl) acl w) else without_port acl.name w

  remove_named : List Str → W → Option W
  remove_named [] w = none
  remove_named (name ∷ _) w = some (db.acl_del_by_index name w).1

  remove_at : Option Str → TableNbAcl → W → Option W
  unfolding remove_named
  remove_at none acl w = some w
  remove_at (some port) acl w = if db.l2port_exists w port then remove_named acl.name w else some w

  -- `aclRemove`
  unfoldable pub acl_remove : TableNbAcl → W → Option W
  unfolding names_port remove_at match_port
  acl_remove acl w = if names_port acl then remove_at (match_port acl) acl w else some w

-- The operation on a row of the table `ACL`
pub data AclUpdate : Type 0 where
  insert delete update : TableNbAcl → AclUpdate

-- `aclNotifyUpdate`
unfoldable pub acl_notify_update : {W : Type 0} → Acldb W → AclUpdate → W → Option W
unfolding acl_create acl_remove
acl_notify_update db (insert acl) w = acl_create db acl w
acl_notify_update db (delete acl) w = acl_remove db acl w
acl_notify_update db (update acl) w = some w
