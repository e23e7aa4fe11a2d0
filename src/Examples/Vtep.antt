-- ===== src/Examples/Vtep.antt =====
-- Policy based routes of go_vtep over a database of one route.
-- The world is the nexthop group of the one route.
use govtep.Base.{
  ◌≡◌, refl, false, not, ◌&&◌, none, some, List, [], ◌∷◌, ◌++◌, arith, if◌then◌else◌, Str, str,
  str_eq, text_laws,
}
use govtep.Golang.Int.{pos}
use govtep.Golang.Decimal.{itoa}
use govtep.Golang.Text.{split}
use govtep.Vtep.Databases.{TablePolicyBasedRoute, Vtepdb}
use govtep.Vtep.Diff.{member, find}
use govtep.Vtep.Diff.Keys.{DistinctKeys}
use govtep.Vtep.PolicyRoute.{
  PolicyBasedRoute, nexthop_for_logical_ip, nexthops_for, update_row_nexthops,
}
use govtep.Vtep.PolicyRoute.Nexthops.{
  NhGroupLaws, update_row_nexthops_lem, update_row_nexthops_unrouted,
}
use govtep.Vtep.Backends.{parser_ip}
use govtep.Vtep.LoadBalancer.{vip_ops}
use govtep.Vtep.Backends.Parse.{parser_ip-print}
use govtep.Vtep.LoadBalancer.Vips.{expected_vip_op, vip_ops_lem}

abbrev Group : Type 0
Group = List Str

abbrev without : Str → Group → Group
without k [] = []
without k (x ∷ xs) = if str_eq k x then without k xs else x ∷ without k xs

abbrev without_all : List Str → Group → Group
without_all [] g = g
without_all (k ∷ ks) g = without_all ks (without k g)

abbrev db : Vtepdb Group
db = record {
  type_lb = str "lb";
  type_snat = str "snat";
  protocol_ignore = str "ignore";
  route_get_by_index = λ w prefix vrf. some (str "2.2.2.2");
  locator_get = λ w. [];
  policy_based_route_get = λ w. [];
  policy_based_route_get_by_index = λ w index. some (str "u1");
  policy_based_route_update_nh_group_addvalue = λ uuid nhs w. (none, nhs ++ w);
  policy_based_route_update_nh_group_delvalue = λ uuid nhs w. (none, without_all nhs w);
  vrf_update_add_pbr = λ vrf row w. (none, row.nh_group);
  vrf_update_pbr_delvalue = λ vrf uuid w. (none, []);
  vrf_get = λ w lr. str "Vrf7" ∷ [];
}

member-without :
    (nh k : Str) (g : Group) → member k (without nh g) ≡ (not (str_eq nh k) && member k g)
unfolding member
member-without nh k [] = ground arith
member-without nh k (x ∷ xs) = grind (text_laws, member-without nh k xs)

laws : NhGroupLaws db (λ w uuid. w)
unfolding member
laws = record {
  member-addvalue = λ uuid nh k w. refl;
  member-delvalue = λ uuid nh k w. member-without nh k w;
}

abbrev route_row : TablePolicyBasedRoute
route_row = record {
  uuid = str "u1";
  type = str "lb";
  ip = str "9.9.9.9";
  port = pos 80 ∷ [];
  protocol = str "tcp" ∷ [];
  vrf = str "Vrf7";
  nh_vrf = str "Vrf7";
  logical_ips = str "10.0.0.2" ∷ str "10.0.0.3" ∷ [];
  nh_group = str "1.1.1.1" ∷ [];
}

update_row_nexthops_example :
    member (str "2.2.2.2") (update_row_nexthops db route_row (str "1.1.1.1" ∷ []))
    ≡ member (str "2.2.2.2") (
        nexthops_for db (str "10.0.0.2" ∷ str "10.0.0.3" ∷ []) (str "Vrf7") (str "1.1.1.1" ∷ []) [])
update_row_nexthops_example =
    update_row_nexthops_lem db (λ w uuid. w) route_row (str "1.1.1.1" ∷ []) (str "2.2.2.2") laws
      refl

-- The same database without routes.
abbrev no_routes : Vtepdb Group
no_routes = record db { route_get_by_index = λ w prefix vrf. none }

no_routes_laws : NhGroupLaws no_routes (λ w uuid. w)
unfolding member
no_routes_laws = record {
  member-addvalue = λ uuid nh k w. refl;
  member-delvalue = λ uuid nh k w. member-without nh k w;
}

no_nexthop :
    (ip : Str) → nexthop_for_logical_ip no_routes ip (str "Vrf7") (str "1.1.1.1" ∷ []) ≡ none
unfolding nexthop_for_logical_ip
no_nexthop ip = refl

update_row_nexthops_unrouted_example :
    member (str "1.1.1.1") (update_row_nexthops no_routes route_row (str "1.1.1.1" ∷ [])) ≡ false
update_row_nexthops_unrouted_example =
    update_row_nexthops_unrouted no_routes (λ w uuid. w) route_row (str "1.1.1.1" ∷ [])
      (str "1.1.1.1") no_routes_laws refl
      (no_nexthop (str "10.0.0.2"), (no_nexthop (str "10.0.0.3"), tt))

abbrev route : PolicyBasedRoute
route = record {
  type = str "lb";
  vrf = str "Vrf7";
  ip = str "9.9.9.9";
  port = pos 80;
  protocol = [];
  logical_ips = str "10.0.0.2" ∷ [];
}

abbrev vips : List (Str × Str)
vips = (str "9.9.9.9:80", str "10.0.0.2:80,10.0.0.3:80") ∷ (str "9.9.9.9", str "10.0.0.2") ∷ []

vips-DistinctKeys : DistinctKeys vips
unfolding find str_eq
vips-DistinctKeys = (refl, (refl, tt))

vip_ops_example :
    find (str "9.9.9.9") (vip_ops [] vips)
    ≡ expected_vip_op (find (str "9.9.9.9") []) (find (str "9.9.9.9") vips)
vip_ops_example = vip_ops_lem (str "9.9.9.9") [] vips vips-DistinctKeys

parser_ip-print_example :
    (parser_ip (str "9.9.9.9" ++ (b':' ∷ itoa 80))
      ≡ record { ip = str "9.9.9.9"; port = pos 80; error = none })
    × (parser_ip (str "9.9.9.9") ≡ record { ip = str "9.9.9.9"; port = pos 0; error = none })
parser_ip-print_example =
    parser_ip-print (str "9.9.9.9") 80 (refl, (refl, (refl, (refl, (refl, (refl, (refl, tt)))))))
      (omega arith)

abbrev backends : Str
backends = str "1.1.1.1:80,1.1.1.2:x,1.1.1.3"

backends-split :
    split b',' backends ≡ (str "1.1.1.1:80" ∷ []) ++ (str "1.1.1.2:x" ∷ str "1.1.1.3" ∷ [])
unfolding split
backends-split = refl
