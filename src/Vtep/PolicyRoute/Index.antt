-- ===== src/Vtep/PolicyRoute/Index.antt =====
-- The row that `policyBasedRouteAdd` writes against the index that `policyBasedRouteDel` asks for.
use govtep.Base.{◌≡◌, refl, ap, some, [], ◌∷◌, Str}
use govtep.Vtep.Databases.{TablePolicyBasedRoute, PolicyBasedRouteIndex, Vtepdb}
use govtep.Vtep.PolicyRoute.{
  PolicyBasedRoute, new_row, policy_based_route_add, row_index, delete_found,
  policy_based_route_del,
}

-- A row answers to an index when its columns hold the index's values.
abbrev pub HasIndex : TablePolicyBasedRoute → PolicyBasedRouteIndex → Type 0
HasIndex row index =
    (row.type ≡ index.type)
    × (row.ip ≡ index.ip)
    × (row.port ≡ index.port ∷ [])
    × (row.vrf ≡ index.vrf)
    × (row.protocol ≡ index.protocol ∷ [])

-- A deletion of a route that has just been added finds the row that was added and takes exactly it
-- out of the VRF, when the database finds a row that it has just added under each index that the row
-- has.
pub policy_based_route_del-add :
    {W : Type 0} (vtepdb : Vtepdb W) (pbr : PolicyBasedRoute) (w : W) (uuid : Str)
    → ((row : TablePolicyBasedRoute) (index : PolicyBasedRouteIndex)
        → HasIndex row index
        → vtepdb.policy_based_route_get_by_index (vtepdb.vrf_update_add_pbr pbr.vrf row w).1 index
          ≡ some uuid)
    → policy_based_route_del vtepdb pbr (policy_based_route_add vtepdb pbr w).1
      ≡ vtepdb.vrf_update_pbr_delvalue pbr.vrf uuid (policy_based_route_add vtepdb pbr w).1
unfolding new_row row_index policy_based_route_del policy_based_route_add delete_found
policy_based_route_del-add vtepdb pbr w uuid finds =
    let w' = (policy_based_route_add vtepdb pbr w).1 in
    ap (λ o. delete_found vtepdb pbr.vrf o w')
      (finds (new_row vtepdb pbr w) (row_index vtepdb pbr) (refl, refl, refl, refl, refl))
