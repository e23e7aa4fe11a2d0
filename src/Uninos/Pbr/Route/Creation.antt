-- ===== src/Uninos/Pbr/Route/Creation.antt =====
-- What creation and removal leave behind.
use govtep.Base.{
  ℕ, ◌≡◌, refl, ap, ◌∙◌, Bool, true, false, Option, none, some, [], if◌then◌else◌, Str, GoError,
  Error,
}
use govtep.Uninos.Databases.{Vtepdb, TableAcl, AclRuleIndex, TableAclRule, TableEcmpGroup, Configdb}
use govtep.Uninos.Pbr.Ecmp.Release.{SameHeld, release-store}
use govtep.Uninos.Pbr.Ecmp.{Pool, store, in_use, get_ecmp_group_id, release_ecmp_group_id}
use govtep.Uninos.Pbr.Sequence.{PbrObj, get_sequence_from_pbr, eip_op_add}
use govtep.Uninos.Pbr.Route.{
  acl_name_of, rule_of, is_some, ensure_acl, undo_group, add_rule, add_group, redirect,
  create_sequenced, create_with_acl, create_object, remove_rule, remove_found, remove_sequenced,
  remove_with_acl, remove_object,
}
use govtep.Golang.Int.{ℤ}

if-none :
    {S : Type 0} (b : Bool) (x y : Error × S)
    → x.0 ≡ none
    → y.0 ≡ none
    → (if b then x else y).0 ≡ none
if-none true x y p q = p
if-none false x y p q = q

module _ {W : Type 0} (vtepdb : Vtepdb W) (cdb : Configdb W) where
  undo_group-none :
      (id : ℕ) (r : Error × W) (pool : Pool) → (undo_group vtepdb cdb id r pool).0 ≡ none
  unfolding undo_group
  undo_group-none id (none, w) pool = refl
  undo_group-none id (some e, w) pool = refl

  add_rule-none :
      (id : ℕ) (g : Str) (r : Error × W) (pool : Pool) → (add_rule vtepdb cdb id g r pool).0 ≡ none
  unfolding add_rule
  add_rule-none id g (none, w) pool = refl
  add_rule-none id g (some e, w) pool = undo_group-none id _ pool

  redirect-none :
      (pbr : PbrObj) (z : ℤ) (r : (ℕ × Error) × Pool) (w : W)
      → (redirect vtepdb cdb pbr z r w).0 ≡ none
  unfolding redirect
  redirect-none pbr z ((id, some e), pool) w = refl
  redirect-none pbr z ((id, none), pool) w = add_group-none _
    where
      add_group-none : (r : (Str × Error) × W) → (add_group vtepdb cdb pbr z id r pool).0 ≡ none
      add_group-none ((group, some e), w) = refl
      add_group-none ((group, none), w) = add_rule-none id group _ pool

  create_sequenced-none :
      (pbr : PbrObj) (r : Option ℤ × W) (pool : Pool)
      → (create_sequenced vtepdb cdb pbr r pool).0 ≡ none
  unfolding create_sequenced
  create_sequenced-none pbr (none, w) pool = refl
  create_sequenced-none pbr (some z, w) pool =
      let next = get_ecmp_group_id (λ i. is_some (cdb.ecmp_group_get_by_index w i)) pool in
      let index : AclRuleIndex = record { acl_name = acl_name_of pbr; sequence = z } in
      if-none (is_some (cdb.acl_rule_get_by_index w index)) (none, (pool, w))
        (redirect vtepdb cdb pbr z next w) refl (redirect-none pbr z next w)

  create_with_acl-none :
      (pbr : PbrObj) (r : Error × W) (pool : Pool)
      → (create_with_acl vtepdb cdb pbr r pool).0 ≡ none
  unfolding create_with_acl
  create_with_acl-none pbr (some e, w) pool = refl
  create_with_acl-none pbr (none, w) pool = create_sequenced-none pbr _ pool

  remove_rule-none :
      (pbr : PbrObj) (rule : Str) (o : Option (Str × TableEcmpGroup)) (s : Pool × W)
      → (remove_rule vtepdb cdb pbr rule o s).0 ≡ none
  unfolding remove_rule
  remove_rule-none pbr rule none (pool, w) = refl
  remove_rule-none pbr rule (some (group, g)) (pool, w) = refl

  remove_with_acl-none :
      (pbr : PbrObj) (o : Option TableAcl) (s : Pool × W)
      → (remove_with_acl vtepdb cdb pbr o s).0 ≡ none
  unfolding remove_with_acl
  remove_with_acl-none pbr none s = refl
  remove_with_acl-none pbr (some acl) (pool, w) = remove_sequenced-none _
    where
      remove_found-none :
          (o : Option TableAclRule) (s : Pool × W) → (remove_found vtepdb cdb pbr o s).0 ≡ none
      remove_found-none none s = refl
      remove_found-none (some rule) (pool, w) = remove_rule-none pbr rule.uuid _ (pool, w)

      remove_sequenced-none :
          (r : Option ℤ × W) → (remove_sequenced vtepdb cdb pbr r acl.acl_name pool).0 ≡ none
      remove_sequenced-none (none, w) = refl
      remove_sequenced-none (some z, w) = remove_found-none _ (pool, w)

  -- A creation never reports an error: when an ACL, a sequence number, a group or a rule cannot be
  -- had it stops, and returns nil all the same. Nor does a removal.
  pub objects_never_fail :
      (pbr : PbrObj) (s : Pool × W)
      → ((create_object vtepdb cdb pbr s).0 ≡ none) × ((remove_object vtepdb cdb pbr s).0 ≡ none)
  unfolding create_object remove_object
  objects_never_fail pbr (pool, w) =
      (create_with_acl-none pbr _ pool, remove_with_acl-none pbr _ (pool, w))

  -- If the ACL exists, the sequence number can be had and has no rule yet, and the allocation of a
  -- group identifier marks one that the pool did not hold, then a creation that adds the group but
  -- cannot add the rule deletes the group again; if that succeeds, the pool holds exactly the
  -- identifiers that it held before, and no error is returned.
  pub create_object_undone :
      (pbr : PbrObj) (pool : Pool) (w w1 w2 w3 w4 : W) (acl : TableAcl) (sequence : ℤ) (id : ℕ)
      (group : Str) (e : GoError)
      → cdb.acl_get_by_index w (acl_name_of pbr) ≡ some acl
      → get_sequence_from_pbr vtepdb cdb pbr eip_op_add w ≡ (some sequence, w1)
      → cdb.acl_rule_get_by_index w1 (record { acl_name = acl_name_of pbr; sequence = sequence })
        ≡ none
      → get_ecmp_group_id (λ i. is_some (cdb.ecmp_group_get_by_index w1 i)) pool
        ≡ ((id, none), store pool id 1)
      → in_use (pool id) ≡ false
      → cdb.ecmp_group_add (record { id = id; nexthop_group = [] }) w1 ≡ ((group, none), w2)
      → cdb.acl_update_add_rule_name (acl_name_of pbr) (rule_of pbr sequence group) w2
        ≡ (some e, w3)
      → cdb.ecmp_group_del_by_uuid group w3 ≡ (none, w4)
      → (pool' : Pool) × (create_object vtepdb cdb pbr (pool, w) ≡ (none, (pool', w4)))
        × SameHeld pool' pool
  unfolding create_object create_with_acl create_sequenced redirect add_group add_rule undo_group
  create_object_undone pbr pool w w1 w2 w3 w4 acl sequence id group e a s r i f g u d =
      (release_ecmp_group_id id (store pool id 1), path, release-store pool id f)
    where
      pool' : Pool
      pool' = store pool id 1

      path : create_object vtepdb cdb pbr (pool, w) ≡ (none, (release_ecmp_group_id id pool', w4))
      path =
          ap (λ o. create_with_acl vtepdb cdb pbr (ensure_acl vtepdb cdb o pbr w) pool) a
          ∙ ap (λ x. create_sequenced vtepdb cdb pbr x pool) s
          ∙ ap
              (λ o.
                if is_some o
                then (none, (pool, w1))
                else redirect vtepdb cdb pbr sequence
                    (get_ecmp_group_id (λ i. is_some (cdb.ecmp_group_get_by_index w1 i)) pool) w1)
              r
          ∙ ap (λ x. redirect vtepdb cdb pbr sequence x w1) i
          ∙ ap (λ x. add_group vtepdb cdb pbr sequence id x pool') g
          ∙ ap (λ x. add_rule vtepdb cdb id group x pool') u
          ∙ ap (λ x. undo_group vtepdb cdb id x pool') d
