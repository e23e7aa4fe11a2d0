-- ===== src/Uninos/AclObjects.antt =====
-- driver/uninos/unos_acl.go and unos_acl_rule.go: the ACLs of the switch's configuration database and
-- their rules. Logging is left out; a new ACL is of the type for layer 2, at ingress.
pub mod Rules
use govtep.Base.{Bool, Option, none, some, List, if◌then◌else◌, Str, Error, for_each, errorf}
use govtep.Golang.Int.{ℤ}

pub record AclRuleObj : Type 0 where
  pub acl_name : Str
  pub sequence : ℤ

-- The values of a stage or type go to the database as they are; `none` is a value that is no list of
-- numbers.
pub data AclAttr : Type 0 where
  acl_stage acl_type : Str → AclAttr
  acl_rules : Option (List ℤ) → AclAttr
  acl_attr : AclAttr

-- Tables of lib/odbapi/unosconfig.
pub record AclTables (W : Type 0) : Type 0 where
  pub acl_exists : W → Str → Bool
  pub acl_add : Str → W → Error × W
  pub acl_del_by_index : Str → W → Error × W
  pub acl_set_stage : Str → Str → W → Error × W
  pub acl_set_type : Str → Str → W → Error × W
  -- the row's identifier
  pub acl_rule_get_by_index : W → AclRuleObj → Option Str
  pub acl_update_add_rule_name : Str → AclRuleObj → W → Error × W
  pub acl_update_rule_name_addvalue : Str → Str → W → Error × W
  pub acl_update_rule_name_delvalue : Str → Str → W → Error × W

module _ {W : Type 0} (db : AclTables W) where
  -- `CreateObject` of `aclAPI`
  unfoldable pub create_acl : Str → W → Error × W
  create_acl name w = if db.acl_exists w name then (none, w) else db.acl_add name w

  -- `RemoveObject` of `aclAPI`
  unfoldable pub remove_acl : Str → W → Error × W
  remove_acl name w = db.acl_del_by_index name w

  attach : Str → Option Str → W → W
  attach name none w = w
  attach name (some uuid) w = (db.acl_update_rule_name_addvalue name uuid w).1

  attach_rule : Str → ℤ → W → W
  unfolding attach
  attach_rule name sequence w =
      attach name (db.acl_rule_get_by_index w (record { acl_name = name; sequence = sequence })) w

  set_acl_attr : Str → AclAttr → W → W
  unfolding attach_rule for_each
  set_acl_attr name (acl_stage stage) w = (db.acl_set_stage name stage w).1
  set_acl_attr name (acl_type type) w = (db.acl_set_type name type w).1
  set_acl_attr name (acl_rules (some rules)) w = for_each rules (attach_rule name) w
  set_acl_attr name (acl_rules none) w = w
  set_acl_attr name acl_attr w = w

  -- `AddObjectAttr` of `aclAPI`
  unfoldable pub add_acl_attr : Str → List AclAttr → W → Error × W
  unfolding set_acl_attr for_each
  add_acl_attr name attrs w =
      if db.acl_exists w name
      then (none, for_each attrs (set_acl_attr name) w)
      else (some (errorf "[Driver] ACL %s not exist"), w)

  create_rule_unless : Option Str → AclRuleObj → W → Error × W
  create_rule_unless (some _) obj w = (none, w)
  create_rule_unless none obj w = db.acl_update_add_rule_name obj.acl_name obj w

  -- `CreateObject` of `aclRuleAPI`
  unfoldable pub create_acl_rule : AclRuleObj → W → Error × W
  unfolding create_rule_unless
  create_acl_rule obj w =
      if db.acl_exists w obj.acl_name
      then create_rule_unless (db.acl_rule_get_by_index w obj) obj w
      else (none, w)

  remove_rule : Option Str → AclRuleObj → W → Error × W
  remove_rule none obj w = (some (errorf "[Driver] ACLRule %d not exist"), w)
  remove_rule (some uuid) obj w = db.acl_update_rule_name_delvalue obj.acl_name uuid w

  -- `RemoveObject` of `aclRuleAPI`
  unfoldable pub remove_acl_rule : AclRuleObj → W → Error × W
  unfolding remove_rule
  remove_acl_rule obj w =
      if db.acl_exists w obj.acl_name
      then remove_rule (db.acl_rule_get_by_index w obj) obj w
      else (some (errorf "[Driver] ACL %s not exist"), w)
