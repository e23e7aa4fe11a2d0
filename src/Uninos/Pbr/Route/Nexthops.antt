-- ===== src/Uninos/Pbr/Route/Nexthops.antt =====
-- Setting the nexthops of a route against adding them.
use govtep.Base.{◌≡◌, sym, ap, ◌∙◌, some, List, [], Str}
use govtep.Uninos.Databases.{Vtepdb, TableEcmpGroup, Configdb}
use govtep.Uninos.Pbr.Route.{
  nexthops, add_nexthops, group_of_route, add_group_attr, add_object_attr, clear_nexthops,
  set_group_attr, set_object_attr,
}
use govtep.Uninos.Pbr.Sequence.{PbrObj}

module _ {W : Type 0} (vtepdb : Vtepdb W) (cdb : Configdb W) where
  -- For a route whose rule redirects to an empty group, setting nexthops and adding them do the same,
  -- in the database and in what they return.
  pub set_object_attr-add :
      (pbr : PbrObj) (nhs : List Str) (g : TableEcmpGroup) (w w1 : W)
      → group_of_route vtepdb cdb pbr w ≡ (some g, w1)
      → g.nexthop_group ≡ []
      → set_object_attr vtepdb cdb pbr (nexthops nhs) w
        ≡ add_object_attr vtepdb cdb pbr (nexthops nhs) w
  unfolding set_object_attr add_object_attr
  set_object_attr-add pbr nhs g w w1 found empty =
      ap (set_group_attr vtepdb cdb pbr (nexthops nhs)) found
      ∙ ap (λ old. add_nexthops vtepdb cdb g.id pbr.vrf nhs (clear_nexthops vtepdb cdb g old w1))
          empty
      ∙ sym (ap (add_group_attr vtepdb cdb pbr (nexthops nhs)) found)
