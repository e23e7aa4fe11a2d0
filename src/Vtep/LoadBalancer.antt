-- ===== src/Vtep/LoadBalancer.antt =====
-- go_vtep/load_balancer.go: the policy based routes that the changes of a load balancer, and those of
-- the routers that use it, ask for. Logging is left out.
pub mod Vips
use govtep.Base.{
  Option, none, some, List, [], ◌∷◌, ◌==◌, if◌then◌else◌, Str, str_eq, length, Error, for_each,
  errorf,
}
use govtep.Golang.Int.{is_nat}
use govtep.Vtep.Backends.{Dynamic, Prepared, prepare_pbr, text, no_text}
use govtep.Vtep.Databases.{
  Vtepdb, TableLoadBalancer, TableLogicalRouter, Ovnnb, OldValue, get_vrf_from_lr,
}
use govtep.Vtep.Diff.{ListOp, find, put, diff_ops, old_uuids, insert_op, delete_op, keep_op}
use govtep.Vtep.PolicyRoute.{PolicyBasedRoute, policy_based_route_add, policy_based_route_del}

-- `odbc.OpInsert` and so on of `vipOp`
pub data VipOp : Type 0 where
  vip_insert vip_delete vip_update vip_keep : VipOp

one_protocol : List Str → Str → Str
one_protocol (p ∷ []) tcp = p
one_protocol _ tcp = tcp

-- The loop over the new addresses that fills `vipOp`.
pub mark_old : List (Str × Str) → List (Str × VipOp) → List (Str × VipOp)
unfolding put
mark_old [] ops = ops
mark_old ((vip, backends) ∷ old) ops = mark_old old (put vip vip_delete ops)

pub vip_op : Option Str → Str → VipOp
vip_op none new_backends = vip_insert
vip_op (some old_backends) new_backends =
    if str_eq old_backends new_backends then vip_keep else vip_update

-- `oldVips[vip]` is there when `vipOp` has the address: no address is twice among the new ones.
pub mark_new : List (Str × Str) → List (Str × Str) → List (Str × VipOp) → List (Str × VipOp)
unfolding put find vip_op
mark_new [] old ops = ops
mark_new ((vip, backends) ∷ new) old ops =
    mark_new new old (put vip (vip_op (find vip old) backends) ops)

pub vip_ops : List (Str × Str) → List (Str × Str) → List (Str × VipOp)
unfolding mark_old mark_new
vip_ops old new = mark_new new old (mark_old old [])

deleted_backends : VipOp → Option Str → Option Str
deleted_backends vip_delete o = o
deleted_backends vip_update o = o
deleted_backends _ o = none

added_backends : VipOp → Option Str → Option Str
added_backends vip_insert o = o
added_backends vip_update o = o
added_backends _ o = none

module _ {W : Type 0} (vtepdb : Vtepdb W) (nb : Ovnnb W) where
  -- The route of an address of a load balancer; one without a port is always under TCP.
  pbr_of : Str → Str → Prepared → PolicyBasedRoute
  pbr_of vrf protocol p = record {
    type = vtepdb.type_lb;
    vrf = vrf;
    ip = p.external_ip;
    port = p.port;
    protocol = if is_nat p.port 0 then nb.protocol_tcp else protocol;
    logical_ips = p.logical_ips;
  }

  -- `if vrf, err := getVrfFromLR(…); err != nil { continue }`
  with_vrf : (Str → W → W) → Option Str → W → W
  with_vrf body none w = w
  with_vrf body (some vrf) w = body vrf w

  for_each_lr : List Str → (Str → W → W) → W → W
  unfolding for_each with_vrf get_vrf_from_lr
  for_each_lr lrs body w = for_each lrs (λ lr w. with_vrf body (get_vrf_from_lr vtepdb lr w) w) w

  remove_vip : TableLoadBalancer → Str × Str → W → W
  unfolding for_each_lr pbr_of one_protocol prepare_pbr
  remove_vip lb (vip, backends) w =
      let p = prepare_pbr (text vip) (text backends) in
      let protocol = one_protocol lb.protocol nb.protocol_tcp in
      for_each_lr lb.applied_lr
        (λ vrf w. (policy_based_route_del vtepdb (pbr_of vrf protocol p) w).1) w

  -- `loadBalancerRemove`
  pub load_balancer_remove : TableLoadBalancer → W → W
  unfolding remove_vip for_each
  load_balancer_remove lb w = for_each lb.vips (remove_vip lb) w

  delete_backends : Str → Str → Str → Option Str → W → W
  delete_backends vrf protocol vip none w = w
  delete_backends vrf protocol vip (some b) w =
      (policy_based_route_del vtepdb (pbr_of vrf protocol (prepare_pbr (text vip) (text b))) w).1

  add_backends : Str → Str → Str → Option Str → W → W
  add_backends vrf protocol vip none w = w
  add_backends vrf protocol vip (some b) w =
      (policy_based_route_add vtepdb (pbr_of vrf protocol (prepare_pbr (text vip) (text b))) w).1

  pub apply_vip_op : List (Str × Str) → TableLoadBalancer → Str × VipOp → W → W
  unfolding deleted_backends added_backends delete_backends add_backends for_each_lr one_protocol
  apply_vip_op old lb (vip, vip_keep) w = w
  apply_vip_op old lb (vip, op) w =
      let protocol = one_protocol lb.protocol nb.protocol_tcp in
      let del = deleted_backends op (find vip old) in
      let add = added_backends op (find vip lb.vips) in
      for_each_lr lb.applied_lr
        (λ vrf w. add_backends vrf protocol vip add (delete_backends vrf protocol vip del w)) w

  -- `loadBalancerUpdateVips`. Go's loop visits `vipOp` in an order of its own.
  pub update_vips : TableLoadBalancer → List (Str × Str) → W → W
  unfolding vip_ops apply_vip_op for_each
  update_vips lb old w = for_each (vip_ops old lb.vips) (apply_vip_op old lb) w

  replace_protocol : TableLoadBalancer → Str → Str → Str × Str → W → W
  unfolding for_each_lr
  replace_protocol lb old_protocol new_protocol (vip, backends) w =
      let p = prepare_pbr (text vip) (text backends) in
      let route : Str → Str → PolicyBasedRoute = λ vrf protocol. record {
        type = vtepdb.type_lb;
        vrf = vrf;
        ip = p.external_ip;
        port = p.port;
        protocol = protocol;
        logical_ips = p.logical_ips;
      } in
      if is_nat p.port 0
      then w
      else for_each_lr lb.applied_lr
          (λ vrf w.
            (policy_based_route_add vtepdb (route vrf new_protocol)
              (policy_based_route_del vtepdb (route vrf old_protocol) w).1).1)
          w

  text_or : Dynamic → Str → Str
  text_or (text s) d = s
  text_or no_text d = d

  first_or : List Str → Str → Str
  first_or [] d = d
  first_or (x ∷ xs) d = x

  -- `loadBalancerUpdateProtocol`: that the protocol is the same is only logged.
  pub update_protocol : TableLoadBalancer → Dynamic → W → W
  unfolding replace_protocol text_or first_or for_each
  update_protocol lb old_value w =
      if length lb.applied_lr == 0
      then w
      else for_each lb.vips
          (replace_protocol lb (text_or old_value nb.protocol_tcp)
            (first_or lb.protocol nb.protocol_tcp))
          w

  add_vip : Str → Str → Str × Str → W → W
  add_vip vrf protocol (vip, backends) w =
      (policy_based_route_add vtepdb (pbr_of vrf protocol (prepare_pbr (text vip) (text backends)))
        w).1

  del_vip : Str → Str → Str × Str → W → W
  del_vip vrf protocol (vip, backends) w =
      (policy_based_route_del vtepdb (pbr_of vrf protocol (prepare_pbr (text vip) (text backends)))
        w).1

  add_found : TableLogicalRouter → Str → Option TableLoadBalancer → Option Str → W → Error × W
  unfolding add_vip one_protocol for_each
  add_found lr uuid none vrf w = (some (errorf "LB %s not found"), w)
  add_found lr uuid (some lb) none w = (some (errorf "LR %s vtepdb.vrf not found"), w)
  add_found lr uuid (some lb) (some vrf) w =
      let w' = for_each lb.vips (add_vip vrf (one_protocol lb.protocol nb.protocol_tcp)) w in
      (none, (nb.load_balancer_update_applied_lr_addvalue uuid (lr.uuid ∷ []) w').1)

  -- `logicalRouterAddLoadBalancer`
  pub add_load_balancer : TableLogicalRouter → Str → W → Error × W
  unfolding add_found
  add_load_balancer lr uuid w =
      add_found lr uuid (nb.load_balancer_get_by_uuid w uuid) (get_vrf_from_lr vtepdb lr.uuid w) w

  del_found : TableLogicalRouter → Str → Option TableLoadBalancer → Option Str → W → Error × W
  unfolding del_vip one_protocol for_each
  del_found lr uuid none vrf w = (some (errorf "LB %s has been removed"), w)
  del_found lr uuid (some lb) none w = (some (errorf "LR %s vtepdb.vrf not found"), w)
  del_found lr uuid (some lb) (some vrf) w =
      let w' = for_each lb.vips (del_vip vrf (one_protocol lb.protocol nb.protocol_tcp)) w in
      (none, (nb.load_balancer_update_applied_lr_delvalue uuid (lr.uuid ∷ []) w').1)

  -- `logicalRouterDelLoadBalancer`
  del_load_balancer : TableLogicalRouter → Str → W → Error × W
  unfolding del_found
  del_load_balancer lr uuid w =
      del_found lr uuid (nb.load_balancer_get_by_uuid w uuid) (get_vrf_from_lr vtepdb lr.uuid w) w

  apply_lb_op : TableLogicalRouter → Str × ListOp → W → W
  unfolding add_load_balancer del_load_balancer
  apply_lb_op lr (uuid, insert_op) w = (add_load_balancer lr uuid w).1
  apply_lb_op lr (uuid, delete_op) w = (del_load_balancer lr uuid w).1
  apply_lb_op lr (uuid, keep_op) w = w

  -- `logicalRouterUpdateLoadBalancer`
  pub update_load_balancer : TableLogicalRouter → OldValue → W → W
  unfolding diff_ops old_uuids apply_lb_op for_each
  update_load_balancer lr old_value w =
      for_each (diff_ops (old_uuids old_value) lr.load_balancer) (apply_lb_op lr) w
