-- ===== src/Vtep/Nat.antt =====
-- go_vtep/nat.go: the policy based routes that the NAT rules of logical routers ask for.
use govtep.Base.{Option, none, some, [], ◌∷◌, Str, Error, for_each, errorf}
use govtep.Golang.Int.{pos}
use govtep.Ovsdb.Rows.{Op, delete}
use govtep.Vtep.Databases.{Vtepdb, TableNat, TableLogicalRouter, Ovnnb, OldValue, get_vrf_from_lr}
use govtep.Vtep.Diff.{ListOp, diff_ops, old_uuids, insert_op, delete_op, keep_op}
use govtep.Vtep.PolicyRoute.{PolicyBasedRoute, policy_based_route_add, policy_based_route_del}

module _ {W : Type 0} (vtepdb : Vtepdb W) (nb : Ovnnb W) where
  nat_route : Str → TableNat → PolicyBasedRoute
  nat_route vrf rule = record {
    type = rule.type;
    vrf = vrf;
    ip = rule.external_ip;
    port = pos 0;
    protocol = [];
    logical_ips = rule.logical_ip ∷ [];
  }

  add_rule : Str → Option TableNat → Option Str → W → Error × W
  unfolding nat_route
  add_rule nat_uuid none vrf w = (some (errorf "nat %s not found"), w)
  add_rule nat_uuid (some rule) none w = (some (errorf "LR %s vtepdb.vrf not found"), w)
  add_rule nat_uuid (some rule) (some vrf) w = (
    none,
    (nb.nat_update_datapath nat_uuid vrf
        (policy_based_route_add vtepdb (nat_route vrf rule) w).1).1,
  )

  -- `logicalRouterAddNat`. The removal of a rule's route is left to `natRemove`.
  pub add_nat : TableLogicalRouter → Str → W → Error × W
  unfolding add_rule
  add_nat lr nat_uuid w =
      add_rule nat_uuid (nb.nat_get_by_uuid w nat_uuid) (get_vrf_from_lr vtepdb lr.uuid w) w

  apply_nat_op : TableLogicalRouter → Str × ListOp → W → W
  unfolding add_nat
  apply_nat_op lr (nat_uuid, insert_op) w = (add_nat lr nat_uuid w).1
  apply_nat_op lr (nat_uuid, delete_op) w = w
  apply_nat_op lr (nat_uuid, keep_op) w = w

  -- `logicalRouterUpdateNat`
  pub update_nat : TableLogicalRouter → OldValue → W → W
  unfolding diff_ops old_uuids apply_nat_op for_each
  update_nat lr old_value w = for_each (diff_ops (old_uuids old_value) lr.nat) (apply_nat_op lr) w

  -- `natRemove`
  nat_remove : TableNat → W → W
  unfolding nat_route
  nat_remove rule w = elim rule.datapath [
    | none ↦ w
    | some vrf ↦ (policy_based_route_del vtepdb (nat_route vrf rule) w).1
  ]

  -- `natNotifyUpdate`: the rule is the new row on an insertion, the old one on a deletion.
  nat_notify_update : Op → TableNat → W → W
  unfolding nat_remove
  nat_notify_update delete rule w = nat_remove rule w
  nat_notify_update _ rule w = w
