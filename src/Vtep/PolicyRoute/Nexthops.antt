-- ===== src/Vtep/PolicyRoute/Nexthops.antt =====
-- The nexthop group of a route after `pbrNhUpdateCb` has handled its row.
use govtep.Base.{
  ◌≡◌, refl, ap, ◌∙◌, inl, inr, Bool, true, false, not, ◌&&◌, ◌||◌, Option, none, some, List, [],
  ◌∷◌, ◌++◌, arith, if◌then◌else◌, Bool-cases, Str, str_eq, text_laws, All, for_each,
}
use govtep.Vtep.Databases.{TablePolicyBasedRoute, Vtepdb}
use govtep.Vtep.Diff.{ListOp, member, find, diff_ops, insert_op, delete_op, keep_op}
use govtep.Vtep.Diff.Members.{Distinct, diff_ops_lem}
use govtep.Vtep.Diff.Keys.{DistinctKeys, diff_ops-DistinctKeys}
use govtep.Vtep.PolicyRoute.{
  nexthop_for_logical_ip, add_nexthop, nexthops_for, apply_nexthop_op, update_row_nexthops,
}

member-append : (k : Str) (xs ys : List Str) → member k (xs ++ ys) ≡ (member k xs || member k ys)
unfolding member
member-append k [] ys = refl
member-append k (x ∷ xs) ys = ground (arith, member-append k xs ys)

Distinct-add :
    (xs : List Str) (x : Str) → Distinct xs → member x xs ≡ false → Distinct (xs ++ (x ∷ []))
unfolding member
Distinct-add [] x d h = (refl, tt)
Distinct-add (y ∷ xs) x d h = (
  grind (text_laws, member-append y xs (x ∷ []), d.0, h),
  Distinct-add xs x d.1 (ground (arith, h)),
)

module _ {W : Type 0} (vtepdb : Vtepdb W) where
  add_nexthop-Distinct :
      (o : Option Str) (group : List Str) → Distinct group → Distinct (add_nexthop vtepdb o group)
  unfolding add_nexthop
  add_nexthop-Distinct none group d = d
  add_nexthop-Distinct (some nh) group d = elim (Bool-cases (member nh group)) [
    | inl h ↦ rw h d
    | inr h ↦ rw h (Distinct-add group nh d h)
  ]

  nexthops_for-Distinct :
      (ips : List Str) (vrf : Str) (w : W) (group : List Str)
      → Distinct group
      → Distinct (nexthops_for vtepdb ips vrf w group)
  unfolding nexthops_for
  nexthops_for-Distinct [] vrf w group d = d
  nexthops_for-Distinct (ip ∷ ips) vrf w group d =
      nexthops_for-Distinct ips vrf w _ (add_nexthop-Distinct _ group d)

-- What the two writes of a group promise: `group` reads the column of a row.
pub record NhGroupLaws {W : Type 0} (vtepdb : Vtepdb W) (group : W → Str → List Str) : Type 0 where
  pub member-addvalue :
      (uuid nh k : Str) (w : W)
      → member k
          (group (vtepdb.policy_based_route_update_nh_group_addvalue uuid (nh ∷ []) w).1 uuid)
        ≡ (str_eq nh k || member k (group w uuid))
  pub member-delvalue :
      (uuid nh k : Str) (w : W)
      → member k
          (group (vtepdb.policy_based_route_update_nh_group_delvalue uuid (nh ∷ []) w).1 uuid)
        ≡ (not (str_eq nh k) && member k (group w uuid))

-- What an operation makes of membership.
abbrev after_op : Option ListOp → Bool → Bool
after_op none b = b
after_op (some insert_op) b = true
after_op (some delete_op) b = false
after_op (some keep_op) b = b

module _ {W : Type 0} (vtepdb : Vtepdb W) (group : W → Str → List Str)
    (laws : NhGroupLaws vtepdb group) (uuid k : Str) where
  apply_nexthop_op-member :
      (nh : Str) (op : ListOp) (w : W)
      → member k (group (apply_nexthop_op vtepdb uuid (nh, op) w) uuid) ≡ (
          if str_eq nh k
          then after_op (some op) (member k (group w uuid))
          else member k (group w uuid))
  unfolding apply_nexthop_op
  apply_nexthop_op-member nh insert_op w = ground (arith, laws.member-addvalue uuid nh k w)
  apply_nexthop_op-member nh delete_op w = ground (arith, laws.member-delvalue uuid nh k w)
  apply_nexthop_op-member nh keep_op w = ground arith

  apply_ops-member :
      (ops : List (Str × ListOp)) (w : W)
      → DistinctKeys ops
      → member k (group (for_each ops (apply_nexthop_op vtepdb uuid) w) uuid)
        ≡ after_op (find k ops) (member k (group w uuid))
  unfolding for_each find
  apply_ops-member [] w d = refl
  apply_ops-member ((nh, op) ∷ ops) w d =
      apply_ops-member ops (apply_nexthop_op vtepdb uuid (nh, op) w) d.1
      ∙ grind (text_laws, apply_nexthop_op-member nh op w, d.0)

-- After the update of a row, its group has an address just when it is the nexthop of one of the row's
-- logical addresses, if the row as read had the group's elements and the database carries out the
-- writes.
pub update_row_nexthops_lem :
    {W : Type 0} (vtepdb : Vtepdb W) (group : W → Str → List Str) (row : TablePolicyBasedRoute)
    (w : W) (k : Str)
    → NhGroupLaws vtepdb group
    → member k (group w row.uuid) ≡ member k row.nh_group
    → member k (group (update_row_nexthops vtepdb row w) row.uuid)
      ≡ member k (nexthops_for vtepdb row.logical_ips row.vrf w [])
unfolding update_row_nexthops diff_ops
update_row_nexthops_lem vtepdb group row w k laws h =
    let new = nexthops_for vtepdb row.logical_ips row.vrf w [] in
    let distinct = nexthops_for-Distinct vtepdb row.logical_ips row.vrf w [] tt in
    let keys = diff_ops-DistinctKeys row.nh_group new in
    ground (
      arith,
      h,
      apply_ops-member vtepdb group laws row.uuid k (diff_ops row.nh_group new) w keys,
      diff_ops_lem k row.nh_group new distinct,
    )

unrouted :
    {W : Type 0} (vtepdb : Vtepdb W) (ips : List Str) (vrf : Str) (w : W) (group : List Str)
    → All (λ ip. nexthop_for_logical_ip vtepdb ip vrf w ≡ none) ips
    → nexthops_for vtepdb ips vrf w group ≡ group
unfolding nexthops_for add_nexthop
unrouted vtepdb [] vrf w group a = refl
unrouted vtepdb (ip ∷ ips) vrf w group a =
    ap (λ o. nexthops_for vtepdb ips vrf w (add_nexthop vtepdb o group)) a.0
    ∙ unrouted vtepdb ips vrf w group a.1

-- Whatever its type, a route none of whose logical addresses has a route of its own (such as a
-- source NAT of a network, whose addition gives it the remote locators as nexthops) has no nexthop
-- left after the update of its row, if the row as read had the group's elements and the database
-- carries out the writes.
pub update_row_nexthops_unrouted :
    {W : Type 0} (vtepdb : Vtepdb W) (group : W → Str → List Str) (row : TablePolicyBasedRoute)
    (w : W) (k : Str)
    → NhGroupLaws vtepdb group
    → member k (group w row.uuid) ≡ member k row.nh_group
    → All (λ ip. nexthop_for_logical_ip vtepdb ip row.vrf w ≡ none) row.logical_ips
    → member k (group (update_row_nexthops vtepdb row w) row.uuid) ≡ false
unfolding member
update_row_nexthops_unrouted vtepdb group row w k laws h a =
    update_row_nexthops_lem vtepdb group row w k laws h
    ∙ ap (member k) (unrouted vtepdb row.logical_ips row.vrf w [] a)
