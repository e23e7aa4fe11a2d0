-- ===== src/Examples/Uninos.antt =====
-- Policy based routes of driver/uninos over small databases.
-- The world counts the writes.
use govtep.Base.{
  ℕ, suc, ◌≤◌, ◌<◌, ◌≡◌, refl, ◌≢◌, ◌↔◌, ◌⊎◌, false, Option, none, some, [], ◌∷◌, str, Error,
  errorf,
}
use govtep.Golang.Int.{pos}
use govtep.Uninos.Databases.{
  TableExternalIp, TableAutoGatewayConf, Vtepdb, TableAcl, TableAclRule, TableEcmpGroup, Configdb,
}
use govtep.Uninos.Pbr.Ecmp.Release.{SameHeld}
use govtep.Uninos.Pbr.Ecmp.{Pool, store, in_use, get_ecmp_group_id}
use govtep.Uninos.Pbr.Sequence.{
  PbrObj, offset, number_eip, get_sequence_from_pbr, lb, tcp, eip_op_add,
}
use govtep.Uninos.Pbr.Sequence.Slots.{Unused, number_eip_new, get_sequence_from_pbr_kept}
use govtep.Uninos.Pbr.Acl.{pbr_acl_create}
use govtep.Uninos.Pbr.Acl.Report.{pbr_acl_create_report}
use govtep.Uninos.Pbr.Route.{create_object}
use govtep.Uninos.Pbr.Route.Creation.{create_object_undone}

abbrev write : ℕ → Error × ℕ
write w = (none, suc w)

abbrev gateway : TableAutoGatewayConf
gateway = record { physical_port = str "ep60"; vlan = 4; ip = str "10.0.0.12/24" }

abbrev numbered : TableExternalIp
numbered = record {
  uuid = str "e1";
  ip = str "9.9.9.9:80";
  vrf = str "Vrf7";
  sequence = pos 1;
  ref_count = pos 1;
}

abbrev unnumbered : TableExternalIp
unnumbered = record {
  uuid = str "e2";
  ip = str "8.8.8.8:80";
  vrf = str "Vrf7";
  sequence = pos 0;
  ref_count = pos 1;
}

-- One external address, which has number 1.
abbrev pub vtepdb : Vtepdb ℕ
vtepdb = record {
  external_ip_get_by_index = λ w index. some numbered;
  external_ip_get = λ w vrf. numbered ∷ [];
  external_ip_set_ref_count = λ index n w. write w;
  external_ip_set_sequence = λ index n w. write w;
  vrf_update_add_external_ips = λ vrf row w. write w;
  vrf_update_external_ips_delvalue = λ vrf uuid w. write w;
  auto_gateway_conf_get_by_index = λ w vrf. some gateway;
}

abbrev route_acl : TableAcl
route_acl = record { acl_name = str "PBR_Vrf7"; ports = [] }

abbrev route_group : TableEcmpGroup
route_group = record { id = 5; nexthop_group = [] }

-- A configuration with or without the ACL, the rule and its group; rules cannot be added.
abbrev pub config : Option TableAcl → Option TableAclRule → Configdb ℕ
config acl rule = record {
  acl_get_by_index = λ w name. acl;
  acl_add = λ row w. write w;
  acl_del_by_index = λ name w. write w;
  acl_set_ports = λ name ports w. write w;
  port_get_by_index = λ w name. some (str "p1");
  interface_get_by_index = λ w name. none;
  interface_update_ip_addvalue = λ name ips w. write w;
  interface_update_ip_delvalue = λ name ips w. write w;
  acl_rule_get_by_index = λ w index. rule;
  acl_update_add_rule_name = λ name row w. (some (errorf "add failed"), w);
  acl_update_rule_name_delvalue = λ name uuid w. write w;
  ecmp_group_get_by_index = λ w id. none;
  ecmp_group_get_by_uuid = λ w uuid. some route_group;
  ecmp_group_add = λ row w. ((str "g1", none), suc w);
  ecmp_group_del_by_uuid = λ uuid w. write w;
  ecmp_group_update_add_nexthop_group = λ id index w. write w;
  ecmp_group_update_nexthop_group_addvalue = λ id uuid w. write w;
  ecmp_group_update_nexthop_group_delvalue = λ id uuids w. write w;
  nexthop_get_by_index = λ w index. none;
}

abbrev pbr : PbrObj
pbr = record { type = lb; vrf = str "Vrf7"; ip = str "9.9.9.9"; port = 80; protocol = tcp }

number_eip_new_example :
    let rows = numbered ∷ [] in
    ((i : ℕ) × (1 ≤ i)
      × (i ≤ 4000)
      × Unused rows i
      × ((k : ℕ) → 1 ≤ k → k < i → ¬ Unused rows k)
      × (number_eip vtepdb (config none none) pbr unnumbered 0 ≡ (pos i, 1)))
    ⊎ (((k : ℕ) → 1 ≤ k → k ≤ 4000 → ¬ Unused rows k)
        × (number_eip vtepdb (config none none) pbr unnumbered 0 ≡ (pos 0, 0)))
number_eip_new_example = number_eip_new vtepdb (config none none) pbr unnumbered 0 refl

pbr_acl_create_report_example :
    (((pbr_acl_create vtepdb (config none none) (str "Vrf7") 0).0 ≡ none) ↔ ((write 0).0 ≢ none))
    × ((pbr_acl_create vtepdb (config none none) (str "Vrf7") 0).1 ≡ 1)
pbr_acl_create_report_example = pbr_acl_create_report vtepdb (config none none) (str "Vrf7") 0 refl

abbrev no_ids : Pool
no_ids i = none

sequenced :
    get_sequence_from_pbr vtepdb (config (some route_acl) none) pbr eip_op_add 0 ≡ (some (pos 1), 1)
unfolding offset
sequenced =
    let kept =
      get_sequence_from_pbr_kept vtepdb (config (some route_acl) none) pbr eip_op_add numbered 0
        refl refl in
    λ i. (kept.0 i, kept.2 i)

first_id : get_ecmp_group_id (λ i. false) no_ids ≡ ((1, none), store no_ids 1 1)
unfolding get_ecmp_group_id
first_id = refl

first_free : in_use (no_ids 1) ≡ false
unfolding in_use
first_free = refl

create_object_undone_example :
    (pool : Pool) × (create_object vtepdb (config (some route_acl) none) pbr (no_ids, 0)
      ≡ (none, (pool, 3)))
    × SameHeld pool no_ids
create_object_undone_example =
    create_object_undone vtepdb (config (some route_acl) none) pbr no_ids 0 1 2 2 3 route_acl
      (pos 1) 1 (str "g1") (errorf "add failed") refl sequenced refl first_id first_free refl refl
      refl
