-- ===== src/Examples/Routers.antt =====
-- Load balancers and the routers that they are applied to. The world is the list of these pairs.
use govtep.Base.{
  ◌≡◌, refl, Bool, false, not, ◌&&◌, ◌||◌, none, List, [], ◌∷◌, ◌++◌, map, if◌then◌else◌, Str, str,
  str_eq, text_laws,
}
use govtep.Vtep.Databases.{Vtepdb, Ovnnb}
use govtep.Vtep.Diff.{member}
use govtep.Vtep.LogicalRouter.{logical_router_remove}
use govtep.Vtep.LogicalRouter.Removal.{DelLaw, logical_router_remove_lem}

abbrev Applied : Type 0
Applied = List (Str × Str)

abbrev vteps : Vtepdb Applied
vteps = record {
  type_lb = str "lb";
  type_snat = str "snat";
  protocol_ignore = str "ignore";
  route_get_by_index = λ w prefix vrf. none;
  locator_get = λ w. [];
  policy_based_route_get = λ w. [];
  policy_based_route_get_by_index = λ w index. none;
  policy_based_route_update_nh_group_addvalue = λ uuid nhs w. (none, w);
  policy_based_route_update_nh_group_delvalue = λ uuid nhs w. (none, w);
  vrf_update_add_pbr = λ vrf row w. (none, w);
  vrf_update_pbr_delvalue = λ vrf uuid w. (none, w);
  vrf_get = λ w lr. [];
}

same_pair : Str → Str → Str × Str → Bool
same_pair lb lr p = str_eq p.0 lb && str_eq p.1 lr

is_applied : Applied → Str → Str → Bool
unfolding same_pair
is_applied [] lb lr = false
is_applied (p ∷ w) lb lr = same_pair lb lr p || is_applied w lb lr

unapply : Str → Str → Applied → Applied
unfolding same_pair
unapply lb lr [] = []
unapply lb lr (p ∷ w) = if same_pair lb lr p then unapply lb lr w else p ∷ unapply lb lr w

unapply_all : Str → List Str → Applied → Applied
unfolding unapply
unapply_all lb [] w = w
unapply_all lb (lr ∷ lrs) w = unapply_all lb lrs (unapply lb lr w)

abbrev balancers : Ovnnb Applied
unfolding unapply_all
balancers = record {
  protocol_tcp = str "tcp";
  load_balancer_get_by_uuid = λ w uuid. none;
  load_balancer_update_applied_lr_addvalue = λ lb lrs w. (none, map (λ lr. (lb, lr)) lrs ++ w);
  load_balancer_update_applied_lr_delvalue = λ lb lrs w. (none, unapply_all lb lrs w);
  nat_get_by_uuid = λ w uuid. none;
  nat_update_datapath = λ uuid vrf w. (none, w);
}

is_applied-unapply :
    (lb lr lb' lr' : Str) (w : Applied)
    → is_applied (unapply lb lr w) lb' lr'
      ≡ (is_applied w lb' lr' && not (str_eq lb lb' && str_eq lr lr'))
unfolding is_applied unapply same_pair
is_applied-unapply lb lr lb' lr' [] = refl
is_applied-unapply lb lr lb' lr' (p ∷ w) = grind (text_laws, is_applied-unapply lb lr lb' lr' w)

del_law : DelLaw balancers is_applied
unfolding balancers unapply_all
del_law lb lr lb' lr' w = is_applied-unapply lb lr lb' lr' w

abbrev applied : Applied
applied = (str "lb1", str "r1") ∷ (str "lb1", str "r2") ∷ []

logical_router_remove_example :
    is_applied
      (logical_router_remove vteps balancers (λ w. str "lb1" ∷ []) (str "r1") applied)
      (str "lb1")
      (str "r2")
    ≡ (is_applied applied (str "lb1") (str "r2")
        && not (member (str "lb1") (str "lb1" ∷ []) && str_eq (str "r1") (str "r2")))
logical_router_remove_example =
    logical_router_remove_lem vteps balancers (λ w. str "lb1" ∷ []) is_applied del_law (str "r1")
      (str "lb1") (str "r2") applied
