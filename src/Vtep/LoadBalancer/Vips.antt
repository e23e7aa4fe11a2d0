-- ===== src/Vtep/LoadBalancer/Vips.antt =====
-- What an update of a load balancer's addresses, or of a router's load balancers, leaves alone.
use govtep.Base.{
  ◌≡◌, refl, ap, ◌∙◌, inl, inr, Option, none, some, List, [], ◌∷◌, arith, if◌then◌else◌,
  Option-cases, Str, str_eq, str_eq_iff, text_laws, for_each,
}
use govtep.Vtep.Diff.{find, put, diff_ops, old_uuids}
use govtep.Vtep.Diff.Members.{Distinct, find-put}
use govtep.Vtep.Diff.Keys.{DistinctKeys, put-DistinctKeys}
use govtep.Vtep.LoadBalancer.{
  VipOp, mark_old, vip_op, mark_new, vip_ops, apply_vip_op, update_vips, apply_lb_op,
  update_load_balancer, vip_insert, vip_delete, vip_update, vip_keep,
}
use govtep.Vtep.Databases.{Vtepdb, TableLoadBalancer, TableLogicalRouter, Ovnnb, OldValue}
use govtep.Vtep.Diff.Entries.{entries_found, for_each_unchanged, diff_ops_same}

find-mark_old :
    (k : Str) (old : List (Str × Str)) (ops : List (Str × VipOp))
    → find k (mark_old old ops)
      ≡ (elim (find k old) [ none ↦ find k ops | some b ↦ some vip_delete ])
unfolding mark_old find
find-mark_old k [] ops = refl
find-mark_old k ((j, b) ∷ old) ops =
    ground (arith, find-mark_old k old (put j vip_delete ops), find-put j k vip_delete ops)

find-mark_new :
    (k : Str) (new old : List (Str × Str)) (ops : List (Str × VipOp))
    → DistinctKeys new
    → find k (mark_new new old ops)
      ≡ (elim (find k new) [ none ↦ find k ops | some b ↦ some (vip_op (find k old) b) ])
unfolding mark_new find
find-mark_new k [] old ops d = refl
find-mark_new k ((j, b) ∷ new) old ops d =
    let op = vip_op (find j old) b in
    ground
      (arith, find-mark_new k new old (put j op ops) d.1, find-put j k op ops, str_eq_iff j k, d.0)

-- What becomes of an address, by its backends in the old and in the new map.
abbrev pub expected_vip_op : Option Str → Option Str → Option VipOp
expected_vip_op none none = none
expected_vip_op none (some b) = some vip_insert
expected_vip_op (some a) none = some vip_delete
expected_vip_op (some a) (some b) = if str_eq a b then some vip_keep else some vip_update

-- An address that only the new map has is inserted, one that only the old map has is deleted, one
-- with the same backends in both is kept, one with other backends is updated, and no other address
-- has an operation; the keys of the new map are distinct.
pub vip_ops_lem :
    (k : Str) (old new : List (Str × Str))
    → DistinctKeys new
    → find k (vip_ops old new) ≡ expected_vip_op (find k old) (find k new)
unfolding vip_ops vip_op find
vip_ops_lem k old new d =
    ground (arith, find-mark_new k new old (mark_old old []) d, find-mark_old k old [])

mark_old-DistinctKeys :
    (old : List (Str × Str)) (ops : List (Str × VipOp))
    → DistinctKeys ops
    → DistinctKeys (mark_old old ops)
unfolding mark_old
mark_old-DistinctKeys [] ops d = d
mark_old-DistinctKeys ((k, b) ∷ old) ops d =
    mark_old-DistinctKeys old _ (put-DistinctKeys k vip_delete ops d)

mark_new-DistinctKeys :
    (new old : List (Str × Str)) (ops : List (Str × VipOp))
    → DistinctKeys ops
    → DistinctKeys (mark_new new old ops)
unfolding mark_new
mark_new-DistinctKeys [] old ops d = d
mark_new-DistinctKeys ((k, b) ∷ new) old ops d =
    mark_new-DistinctKeys new old _ (put-DistinctKeys k _ ops d)

vip_ops-DistinctKeys : (old new : List (Str × Str)) → DistinctKeys (vip_ops old new)
unfolding vip_ops
vip_ops-DistinctKeys old new = mark_new-DistinctKeys new old _ (mark_old-DistinctKeys old [] tt)

keep_only :
    (k : Str) (op : VipOp) (vips : List (Str × Str))
    → DistinctKeys vips
    → find k (vip_ops vips vips) ≡ some op
    → op ≡ vip_keep
keep_only k op vips d h = elim (Option-cases (find k vips)) [
  | inl lacking ↦ absurd (ground (arith, h, lacking, vip_ops_lem k vips vips d))
  | inr (b, there) ↦ grind (text_laws, h, there, vip_ops_lem k vips vips d)
]

module _ {W : Type 0} (vtepdb : Vtepdb W) (nb : Ovnnb W) where
  -- An update of the addresses whose old map is the new one, with distinct keys, does nothing.
  pub update_vips_same :
      (lb : TableLoadBalancer) (w : W)
      → DistinctKeys lb.vips
      → update_vips vtepdb nb lb lb.vips w ≡ w
  unfolding update_vips apply_vip_op
  update_vips_same lb w d =
      let same : (k : Str) (t : W) → apply_vip_op vtepdb nb lb.vips lb (k, vip_keep) t ≡ t =
        λ k t. refl in
      for_each_unchanged (λ e. find e.0 (vip_ops lb.vips lb.vips) ≡ some e.1)
        (vip_ops lb.vips lb.vips) (apply_vip_op vtepdb nb lb.vips lb) w
        (λ e h t.
          ap (λ op. apply_vip_op vtepdb nb lb.vips lb (e.0, op) t) (keep_only e.0 e.1 lb.vips d h)
          ∙ same e.0 t)
        (entries_found (vip_ops lb.vips lb.vips) (vip_ops-DistinctKeys lb.vips lb.vips))

  -- An update of a router's load balancers whose old value holds the row's own identifiers, none of
  -- them twice, does nothing.
  pub update_load_balancer_same :
      (lr : TableLogicalRouter) (old_value : OldValue) (w : W)
      → Distinct lr.load_balancer
      → old_uuids old_value ≡ lr.load_balancer
      → update_load_balancer vtepdb nb lr old_value w ≡ w
  unfolding update_load_balancer apply_lb_op
  update_load_balancer_same lr old_value w d h =
      ap (λ old. for_each (diff_ops old lr.load_balancer) (apply_lb_op vtepdb nb lr) w) h
      ∙ diff_ops_same lr.load_balancer (apply_lb_op vtepdb nb lr) w d (λ k t. refl)
