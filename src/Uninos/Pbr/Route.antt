-- ===== src/Uninos/Pbr/Route.antt =====
-- `pbrAPI`: creation and removal of a policy based route, and its attributes. The package variable
-- `ecmpGroupIDPool` goes along with the world.
pub mod Creation
pub mod Nexthops
use govtep.Base.{
  ℕ, Bool, true, false, Option, none, some, List, [], ◌∷◌, ◌++◌, ltb, ◌==◌, if◌then◌else◌, Str, str,
  length, drop, Error, for_each,
}
use govtep.Golang.Int.{ℤ}
use govtep.Golang.Decimal.{Parsed, atoi, parsed, failed}
use govtep.Uninos.Databases.{
  TableAutoGatewayConf, Vtepdb, TableAcl, AclRuleIndex, TableAclRule, TableEcmpGroup, NexthopIndex,
  Configdb,
}
use govtep.Uninos.Pbr.Ecmp.{Pool, get_ecmp_group_id, release_ecmp_group_id}
use govtep.Uninos.Pbr.Sequence.{
  Protocol, PbrObj, get_sequence_from_pbr, tcp, udp, sctp, ignore, no_eip_op, eip_op_add,
  eip_op_del,
}
use mathlib.Core.Option

pub acl_name_of : PbrObj → Str
acl_name_of pbr = str "PBR_" ++ pbr.vrf

-- `getIPProtocol`
ip_protocol_of : Protocol → ℕ
ip_protocol_of tcp = 6
ip_protocol_of udp = 17
ip_protocol_of sctp = 132
ip_protocol_of _ = 0

parsed_value : Parsed → ℤ
parsed_value (parsed z) = z
parsed_value (failed z) = z

-- `getVniFromVrf`: the error of `Atoi` is ignored; `none` is the panic of `vrf[3:]` on a short name.
vni_from_vrf : Str → Option ℤ
unfolding parsed_value atoi
vni_from_vrf vrf = if ltb (length vrf) 3 then none else some (parsed_value (atoi (drop 3 vrf)))

rule_protocols : Protocol → List ℕ
unfolding ip_protocol_of
rule_protocols ignore = []
rule_protocols p = ip_protocol_of p ∷ []

-- The rule of a route, which redirects to a group.
pub rule_of : PbrObj → ℤ → Str → TableAclRule
unfolding acl_name_of rule_protocols
rule_of pbr sequence group = record {
  uuid = [];
  acl_name = acl_name_of pbr;
  sequence = sequence;
  dst_ip = (pbr.ip ++ str "/32") ∷ [];
  ip_protocol = rule_protocols pbr.protocol;
  l4_dst_port = if pbr.port == 0 then [] else pbr.port ∷ [];
  redirect_ecmpgroup = group ∷ [];
}

-- `attrs[tai.PBRAttrNexthopGroup]`: nil, a list of addresses, or a value of another type.
pub data NexthopAttr : Type 0 where
  no_attr : NexthopAttr
  nexthops : List Str → NexthopAttr
  wrong_type : NexthopAttr

abbrev pub is_some {ℓ} : {A : Type ℓ} → Option A → Bool
is_some none = false
is_some (some _) = true

module _ {W : Type 0} (vtepdb : Vtepdb W) (cdb : Configdb W) where
  gateway_ports : Option TableAutoGatewayConf → W → List Str
  gateway_ports none w = []
  gateway_ports (some gateway) w = elim (cdb.port_get_by_index w gateway.physical_port) [
    | none ↦ []
    | some uuid ↦ uuid ∷ []
  ]

  -- The error is that of `ACLAdd`; there is none if the ACL exists.
  ensure_acl : Option TableAcl → PbrObj → W → Error × W
  unfolding gateway_ports acl_name_of
  ensure_acl (some _) pbr w = (none, w)
  ensure_acl none pbr w =
      let acl : TableAcl = record {
        acl_name = acl_name_of pbr;
        ports = gateway_ports (vtepdb.auto_gateway_conf_get_by_index w pbr.vrf) w;
      } in
      cdb.acl_add acl w

  -- The group of a rule that could not be added is deleted again.
  undo_group : ℕ → Error × W → Pool → Error × (Pool × W)
  unfolding release_ecmp_group_id
  undo_group id (none, w) pool = (none, (release_ecmp_group_id id pool, w))
  undo_group id (some e, w) pool = (none, (pool, w))

  add_rule : ℕ → Str → Error × W → Pool → Error × (Pool × W)
  unfolding undo_group
  add_rule id group (none, w) pool = (none, (pool, w))
  add_rule id group (some e, w) pool = undo_group id (cdb.ecmp_group_del_by_uuid group w) pool

  add_group : PbrObj → ℤ → ℕ → (Str × Error) × W → Pool → Error × (Pool × W)
  unfolding add_rule rule_of acl_name_of release_ecmp_group_id
  add_group pbr sequence id ((group, some e), w) pool = (none, (release_ecmp_group_id id pool, w))
  add_group pbr sequence id ((group, none), w) pool =
      add_rule id group
        (cdb.acl_update_add_rule_name (acl_name_of pbr) (rule_of pbr sequence group) w) pool

  redirect : PbrObj → ℤ → (ℕ × Error) × Pool → W → Error × (Pool × W)
  unfolding add_group
  redirect pbr sequence ((id, some e), pool) w = (none, (pool, w))
  redirect pbr sequence ((id, none), pool) w =
      add_group pbr sequence id (cdb.ecmp_group_add (record { id = id; nexthop_group = [] }) w) pool

  create_sequenced : PbrObj → Option ℤ × W → Pool → Error × (Pool × W)
  unfolding redirect get_ecmp_group_id acl_name_of
  create_sequenced pbr (none, w) pool = (none, (pool, w))
  create_sequenced pbr (some sequence, w) pool =
      let index : AclRuleIndex = record { acl_name = acl_name_of pbr; sequence = sequence } in
      if is_some (cdb.acl_rule_get_by_index w index)
      then (none, (pool, w))
      else redirect pbr sequence
          (get_ecmp_group_id (λ i. is_some (cdb.ecmp_group_get_by_index w i)) pool) w

  create_with_acl : PbrObj → Error × W → Pool → Error × (Pool × W)
  unfolding create_sequenced get_sequence_from_pbr
  create_with_acl pbr (some e, w) pool = (none, (pool, w))
  create_with_acl pbr (none, w) pool =
      create_sequenced pbr (get_sequence_from_pbr vtepdb cdb pbr eip_op_add w) pool

  -- `CreateObject`
  unfoldable pub create_object : PbrObj → Pool × W → Error × (Pool × W)
  unfolding create_with_acl ensure_acl acl_name_of
  create_object pbr (pool, w) =
      create_with_acl pbr (ensure_acl (cdb.acl_get_by_index w (acl_name_of pbr)) pbr w) pool

  -- The group that a rule redirects to: `none` unless it has exactly one, and it is there.
  redirect_group : List Str → W → Option (Str × TableEcmpGroup)
  redirect_group (group ∷ []) w = elim (cdb.ecmp_group_get_by_uuid w group) [
    | none ↦ none
    | some g ↦ some (group, g)
  ]
  redirect_group _ w = none

  released : ℕ → Error → Pool → Pool
  unfolding release_ecmp_group_id
  released id none pool = release_ecmp_group_id id pool
  released id (some e) pool = pool

  remove_rule : PbrObj → Str → Option (Str × TableEcmpGroup) → Pool × W → Error × (Pool × W)
  unfolding released acl_name_of
  remove_rule pbr rule none (pool, w) = (none, (pool, w))
  remove_rule pbr rule (some (group, g)) (pool, w) =
      let (err, w1) = cdb.ecmp_group_del_by_uuid group w in
      let w2 = (cdb.acl_update_rule_name_delvalue (acl_name_of pbr) rule w1).1 in
      (none, (released g.id err pool, w2))

  remove_found : PbrObj → Option TableAclRule → Pool × W → Error × (Pool × W)
  unfolding remove_rule redirect_group
  remove_found pbr none s = (none, s)
  remove_found pbr (some rule) (pool, w) =
      remove_rule pbr rule.uuid (redirect_group rule.redirect_ecmpgroup w) (pool, w)

  remove_sequenced : PbrObj → Option ℤ × W → Str → Pool → Error × (Pool × W)
  unfolding remove_found
  remove_sequenced pbr (none, w) acl pool = (none, (pool, w))
  remove_sequenced pbr (some sequence, w) acl pool =
      remove_found pbr
        (cdb.acl_rule_get_by_index w (record { acl_name = acl; sequence = sequence })) (pool, w)

  remove_with_acl : PbrObj → Option TableAcl → Pool × W → Error × (Pool × W)
  unfolding remove_sequenced get_sequence_from_pbr
  remove_with_acl pbr none s = (none, s)
  remove_with_acl pbr (some acl) (pool, w) =
      remove_sequenced pbr (get_sequence_from_pbr vtepdb cdb pbr eip_op_del w) acl.acl_name pool

  -- `RemoveObject`
  unfoldable pub remove_object : PbrObj → Pool × W → Error × (Pool × W)
  unfolding remove_with_acl acl_name_of
  remove_object pbr (pool, w) =
      remove_with_acl pbr (cdb.acl_get_by_index w (acl_name_of pbr)) (pool, w)

  -- One nexthop goes into the group: a new row, or the one that is there. Errors are only logged.
  add_nexthop : ℕ → Str → ℤ → Str → W → W
  add_nexthop id vrf label nh w =
      let index : NexthopIndex = record { ip = nh; nexthop_vrf = vrf; label = label } in
      elim (cdb.nexthop_get_by_index w index) [
        | none ↦ (cdb.ecmp_group_update_add_nexthop_group id index w).1
        | some uuid ↦ (cdb.ecmp_group_update_nexthop_group_addvalue id uuid w).1
      ]

  -- `for _, nh := range nhGroup`; the name of the VRF is sliced in each round.
  pub add_nexthops : ℕ → Str → List Str → W → Option W
  unfolding add_nexthop for_each vni_from_vrf
  add_nexthops id vrf [] w = some w
  add_nexthops id vrf (nh ∷ nhs) w = elim (vni_from_vrf vrf) [
    | none ↦ none
    | some label ↦ some (for_each (nh ∷ nhs) (add_nexthop id vrf label) w)
  ]

  -- The part that `AddObjectAttr` and `SetObjectAttr` share: the group of the route's rule.
  rule_group : Option TableAclRule → W → Option TableEcmpGroup
  unfolding redirect_group
  rule_group none w = none
  rule_group (some rule) w = Option.map (λ g. g.1) (redirect_group rule.redirect_ecmpgroup w)

  sequence_group : Option ℤ × W → Str → Option TableEcmpGroup × W
  unfolding rule_group
  sequence_group (none, w) acl = (none, w)
  sequence_group (some z, w) acl =
      (rule_group (cdb.acl_rule_get_by_index w (record { acl_name = acl; sequence = z })) w, w)

  acl_group : PbrObj → Option TableAcl → W → Option TableEcmpGroup × W
  unfolding sequence_group get_sequence_from_pbr
  acl_group pbr none w = (none, w)
  acl_group pbr (some acl) w =
      sequence_group (get_sequence_from_pbr vtepdb cdb pbr no_eip_op w) acl.acl_name

  unfoldable pub group_of_route : PbrObj → W → Option TableEcmpGroup × W
  unfolding acl_group acl_name_of
  group_of_route pbr w = acl_group pbr (cdb.acl_get_by_index w (acl_name_of pbr)) w

  add_group_attr : PbrObj → NexthopAttr → Option TableEcmpGroup × W → Option W
  unfolding add_nexthops
  add_group_attr pbr (nexthops nhs) (some g, w) = add_nexthops g.id pbr.vrf nhs w
  add_group_attr pbr _ (_, w) = some w

  -- `AddObjectAttr`, with the attribute `PBRAttrNexthopGroup`; `none` is a panic. The error is nil.
  unfoldable pub add_object_attr : PbrObj → NexthopAttr → W → Option W
  unfolding add_group_attr group_of_route
  add_object_attr pbr attr w = add_group_attr pbr attr (group_of_route pbr w)

  clear_nexthops : TableEcmpGroup → List Str → W → W
  clear_nexthops g [] w = w
  clear_nexthops g (nh ∷ nhs) w = (cdb.ecmp_group_update_nexthop_group_delvalue g.id (nh ∷ nhs) w).1

  set_group_attr : PbrObj → NexthopAttr → Option TableEcmpGroup × W → Option W
  unfolding add_nexthops clear_nexthops
  set_group_attr pbr (nexthops nhs) (some g, w) =
      add_nexthops g.id pbr.vrf nhs (clear_nexthops g g.nexthop_group w)
  set_group_attr pbr _ (_, w) = some w

  -- `SetObjectAttr`
  unfoldable pub set_object_attr : PbrObj → NexthopAttr → W → Option W
  unfolding set_group_attr group_of_route
  set_object_attr pbr attr w = set_group_attr pbr attr (group_of_route pbr w)
