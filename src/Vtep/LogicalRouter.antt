-- ===== src/Vtep/LogicalRouter.antt =====
-- go_vtep/logical_router.go, and the dispatch by operation and field of go_vtep/load_balancer.go:
-- what happens when a row of a logical router or of a load balancer changes. Logging is left out.
pub mod Removal
use govtep.Base.{List, [], ◌∷◌, Str, for_each}
use govtep.Vtep.Databases.{Vtepdb, TableLoadBalancer, TableLogicalRouter, Ovnnb, OldValue}
use govtep.Vtep.Backends.{Dynamic}
use govtep.Vtep.LoadBalancer.{
  load_balancer_remove, update_vips, update_protocol, add_load_balancer, update_load_balancer,
}
use govtep.Vtep.Nat.{add_nat, update_nat}

-- A column of the old row of a router, and of a load balancer, with its old value.
pub data OldRouterField : Type 0 where
  old_load_balancer old_nat : OldValue → OldRouterField
  old_router_field : OldRouterField

pub data OldBalancerField : Type 0 where
  old_vips : List (Str × Str) → OldBalancerField
  old_protocol : Dynamic → OldBalancerField
  old_balancer_field : OldBalancerField

pub data RouterUpdate : Type 0 where
  router_inserted router_deleted : TableLogicalRouter → RouterUpdate
  router_updated : TableLogicalRouter → List OldRouterField → RouterUpdate

pub data BalancerUpdate : Type 0 where
  balancer_inserted balancer_deleted : TableLoadBalancer → BalancerUpdate
  balancer_updated : TableLoadBalancer → List OldBalancerField → BalancerUpdate

-- `load_balancer_get` gives the identifiers of all load balancers.
module _ {W : Type 0} (vtepdb : Vtepdb W) (nb : Ovnnb W) (load_balancer_get : W → List Str) where
  -- `logicalRouterCreate`; errors are only logged
  unfoldable pub logical_router_create : TableLogicalRouter → W → W
  unfolding for_each
  logical_router_create lr w =
      for_each lr.nat (λ nat w. (add_nat vtepdb nb lr nat w).1)
        (for_each lr.load_balancer (λ lb w. (add_load_balancer vtepdb nb lr lb w).1) w)

  -- `logicalRouterRemove`; errors are only logged
  unfoldable pub logical_router_remove : Str → W → W
  unfolding for_each
  logical_router_remove uuid w =
      for_each (load_balancer_get w)
        (λ lb w. (nb.load_balancer_update_applied_lr_delvalue lb (uuid ∷ []) w).1) w

  update_router_field : TableLogicalRouter → OldRouterField → W → W
  update_router_field lr (old_load_balancer old) w = update_load_balancer vtepdb nb lr old w
  update_router_field lr (old_nat old) w = update_nat vtepdb nb lr old w
  update_router_field lr old_router_field w = w

  -- `logicalRouterUpdate`: no field fails
  unfoldable pub logical_router_update : TableLogicalRouter → List OldRouterField → W → W
  unfolding for_each update_router_field
  logical_router_update lr fields w = for_each fields (update_router_field lr) w

  -- `logicalRouterNotifyUpdate`
  unfoldable pub logical_router_notify_update : RouterUpdate → W → W
  unfolding logical_router_create logical_router_remove logical_router_update
  logical_router_notify_update (router_inserted lr) w = logical_router_create lr w
  logical_router_notify_update (router_deleted lr) w = logical_router_remove lr.uuid w
  logical_router_notify_update (router_updated lr fields) w = logical_router_update lr fields w

  update_balancer_field : TableLoadBalancer → OldBalancerField → W → W
  update_balancer_field lb (old_vips old) w = update_vips vtepdb nb lb old w
  update_balancer_field lb (old_protocol old) w = update_protocol vtepdb nb lb old w
  update_balancer_field lb old_balancer_field w = w

  -- `loadBalancerUpdate`: no field fails
  unfoldable pub load_balancer_update : TableLoadBalancer → List OldBalancerField → W → W
  unfolding for_each update_balancer_field
  load_balancer_update lb fields w = for_each fields (update_balancer_field lb) w

  -- `loadBalancerNotifyUpdate`; `loadBalancerCreate` does nothing
  unfoldable pub load_balancer_notify_update : BalancerUpdate → W → W
  unfolding load_balancer_update
  load_balancer_notify_update (balancer_inserted lb) w = w
  load_balancer_notify_update (balancer_deleted lb) w = load_balancer_remove vtepdb nb lb w
  load_balancer_notify_update (balancer_updated lb fields) w = load_balancer_update lb fields w
