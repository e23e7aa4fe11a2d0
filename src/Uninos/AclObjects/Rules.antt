-- ===== src/Uninos/AclObjects/Rules.antt =====
-- The rules of an ACL, by their numbers.
use govtep.Base.{
  ◌≡◌, refl, ap, ◌∙◌, Bool, true, false, Option, none, some, if◌then◌else◌, Str, errorf,
}
use govtep.Uninos.AclObjects.{
  AclRuleObj, AclTables, create_rule_unless, create_acl_rule, remove_rule, remove_acl_rule,
}

unfoldable pub is_row : Option Str → Bool
is_row none = false
is_row (some _) = true

unfoldable pub has_rule : {W : Type 0} → AclTables W → W → AclRuleObj → Bool
unfolding is_row
has_rule db w obj = is_row (db.acl_rule_get_by_index w obj)

-- A server that takes the writes: a rule that is added is found, and the one whose
-- identifier is deleted is not.
pub record RuleLaws {W : Type 0} (db : AclTables W) : Type 0 where
  pub rule-added :
      (obj : AclRuleObj) (w : W)
      → has_rule db (db.acl_update_add_rule_name obj.acl_name obj w).1 obj ≡ true
  pub rule-deleted :
      (obj : AclRuleObj) (uuid : Str) (w : W)
      → db.acl_rule_get_by_index w obj ≡ some uuid
      → has_rule db (db.acl_update_rule_name_delvalue obj.acl_name uuid w).1 obj ≡ false

module _ {W : Type 0} (db : AclTables W) (laws : RuleLaws db) where
  has_rule-create_unless :
      (found : Option Str) (obj : AclRuleObj) (w : W)
      → db.acl_rule_get_by_index w obj ≡ found
      → has_rule db (create_rule_unless db found obj w).1 obj ≡ true
  unfolding create_rule_unless has_rule is_row
  has_rule-create_unless none obj w e = laws.rule-added obj w
  has_rule-create_unless (some uuid) obj w e = ap is_row e

  has_rule-remove :
      (found : Option Str) (obj : AclRuleObj) (w : W)
      → db.acl_rule_get_by_index w obj ≡ found
      → has_rule db (remove_rule db found obj w).1 obj ≡ false
  unfolding remove_rule has_rule is_row
  has_rule-remove none obj w e = ap is_row e
  has_rule-remove (some uuid) obj w e = laws.rule-deleted obj uuid w e

  -- A rule of an ACL that is there is found after its creation, also when it was there before, and is
  -- not found after its removal, also when it was not there.
  pub acl_rule_lifecycle :
      (obj : AclRuleObj) (w : W)
      → db.acl_exists w obj.acl_name ≡ true
      → (has_rule db (create_acl_rule db obj w).1 obj ≡ true)
        × (has_rule db (remove_acl_rule db obj w).1 obj ≡ false)
  unfolding create_acl_rule remove_acl_rule
  acl_rule_lifecycle obj w there = (
    ap
          (λ b.
            has_rule db
              (if b
                then create_rule_unless db (db.acl_rule_get_by_index w obj) obj w
                else (none, w)).1
              obj)
          there
        ∙ has_rule-create_unless (db.acl_rule_get_by_index w obj) obj w refl,
    ap
          (λ b.
            has_rule db
              (if b
                then remove_rule db (db.acl_rule_get_by_index w obj) obj w
                else (some (errorf "[Driver] ACL %s not exist"), w)).1
              obj)
          there
        ∙ has_rule-remove (db.acl_rule_get_by_index w obj) obj w refl,
  )
