-- ===== src/Uninos/Forwarding/Neighbours.antt =====
-- When the attributes of a neighbour are taken without a panic.
use govtep.Base.{
  ◌≡◌, refl, sym, subst, Bool, true, false, Option, none, some, List, [], ◌∷◌, arith, if◌then◌else◌,
  Str, either_way, All, ◌>>=◌,
}
use govtep.Uninos.Forwarding.{
  NeighbourAttr, neighbour_attr, Forwardingdb, skip_two, set_vxlanid, set_bridge,
  set_neighbour_attr, set_neighbour_attrs, add_neighbour_attr, neighbour_macaddr,
  neighbour_out_port, neighbour_remote_ip, field_mac, field_outport, field_bridge, field_vxlanid,
  field_remote,
}

unfoldable pub has_two : Str → Bool
has_two (_ ∷ _ ∷ s) = true
has_two _ = false

unfoldable pub is_string : NeighbourAttr → Bool
is_string (neighbour_macaddr (some _)) = true
is_string (neighbour_out_port (some _)) = true
is_string (neighbour_remote_ip (some _)) = true
is_string neighbour_attr = true
is_string _ = false

Runs : {W : Type 0} → Option W → Type 0
Runs {W} r = (w : W) × (r ≡ some w)

module _ {W : Type 0} (db : Forwardingdb W)
    (named : (w : W) (bridge : Str)
      → db.bridge_exists w bridge ≡ true
      → has_two bridge ≡ true) where
  set_vxlanid-Runs :
      (ip port : Str) (w : W) → has_two port ≡ true → Runs (set_vxlanid db ip (skip_two port) w)
  unfolding set_vxlanid skip_two has_two Runs
  set_vxlanid-Runs ip (a ∷ b ∷ s) w h = ((db.neighbor_set_field ip (field_vxlanid s) w).1, refl)
  set_vxlanid-Runs ip (a ∷ []) w h = ground (arith, h)
  set_vxlanid-Runs ip [] w h = ground (arith, h)

  set_bridge-Runs : (ip port : Str) (w : W) → Runs (set_bridge db ip port w)
  unfolding set_bridge Runs
  set_bridge-Runs ip port w = by_bridge (db.bridge_exists w port) (named w port)
    where
      by_bridge :
          (b : Bool)
          → (b ≡ true → has_two port ≡ true)
          → Runs (
              if b
              then set_vxlanid db ip
                  (skip_two port)
                  (db.neighbor_set_field ip (field_bridge port) w).1
              else some w)
      by_bridge true h =
          set_vxlanid-Runs ip port (db.neighbor_set_field ip (field_bridge port) w).1 (h refl)
      by_bridge false h = (w, refl)

  set_neighbour_attr-Runs :
      (ip : Str) (attr : NeighbourAttr) (w : W)
      → is_string attr ≡ true
      → Runs (set_neighbour_attr db ip attr w)
  unfolding set_neighbour_attr is_string Runs
  set_neighbour_attr-Runs ip (neighbour_macaddr (some mac)) w h =
      ((db.neighbor_set_field ip (field_mac mac) w).1, refl)
  set_neighbour_attr-Runs ip (neighbour_out_port (some port)) w h =
      set_bridge-Runs ip port (db.neighbor_set_field ip (field_outport port) w).1
  set_neighbour_attr-Runs ip (neighbour_remote_ip (some remote)) w h =
      ((db.neighbor_set_field ip (field_remote remote) w).1, refl)
  set_neighbour_attr-Runs ip neighbour_attr w h = (w, refl)
  set_neighbour_attr-Runs ip (neighbour_macaddr none) w h = ground (arith, h)
  set_neighbour_attr-Runs ip (neighbour_out_port none) w h = ground (arith, h)
  set_neighbour_attr-Runs ip (neighbour_remote_ip none) w h = ground (arith, h)

  set_neighbour_attrs-Runs :
      (ip : Str) (attrs : List NeighbourAttr) (w : W)
      → All (λ attr. is_string attr ≡ true) attrs
      → Runs (set_neighbour_attrs db ip attrs w)
  unfolding set_neighbour_attrs Runs ◌>>=◌
  set_neighbour_attrs-Runs ip [] w h = (w, refl)
  set_neighbour_attrs-Runs ip (attr ∷ attrs) w (h, hs) =
      let (w1, e) = set_neighbour_attr-Runs ip attr w h in
      subst (λ r. Runs (r >>= set_neighbour_attrs db ip attrs)) (sym e)
        (set_neighbour_attrs-Runs ip attrs w1 hs)

  -- Where no bridge has a name of less than two bytes, attributes whose values are strings are taken
  -- without a panic, whatever the order, and whether or not the neighbour and its bridge are there.
  pub add_neighbour_attr_runs :
      (ip : Str) (attrs : List NeighbourAttr) (w : W)
      → All (λ attr. is_string attr ≡ true) attrs
      → (w1 : W) × (add_neighbour_attr db ip attrs w ≡ some w1)
  unfolding add_neighbour_attr Runs
  add_neighbour_attr_runs ip attrs w h =
      either_way (db.neighbor_exists w ip) Runs (set_neighbour_attrs-Runs ip attrs w h) (w, refl)
