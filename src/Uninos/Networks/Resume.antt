-- ===== src/Uninos/Networks/Resume.antt =====
-- Creations of bridges and VRFs from the names that go_vtep makes, the second time included.
use govtep.Base.{
  ℕ, ◌≤◌, ◌≡◌, refl, ap, ◌∙◌, Bool, true, false, ◌&&◌, some, [], ◌∷◌, leb, if◌then◌else◌, Str, str,
  errorf,
}
use govtep.Golang.Int.{ℤ, pos}
use govtep.Golang.Decimal.{max_int}
use govtep.Uninos.Databases.{Vtepdb, Configdb}
use govtep.Uninos.Networks.{
  Networkdb, vni_in_range, local_mac, ensure_bd_interface, ensure_bridge, create_bridge_of,
  create_bridge, interface_added, ensure_vrf, create_vrf_of, create_vrf,
}
use govtep.Vtep.Names.{bd_name_by_vni, vrf_name_by_vni}
use govtep.Vtep.Names.RoundTrip.{vni_by_name_lem}

if_some :
    {A : Type 0} (b : Bool) (x y : A) → (if b then some x else some y) ≡ some (if b then x else y)
if_some true x y = refl
if_some false x y = refl

module _ {W : Type 0} (vtepdb : Vtepdb W) (cdb : Configdb W) (net : Networkdb W) where
  -- The bridge of a VNI is created just when the VNI is within the bounds of the schema; otherwise
  -- the creation is an error and changes nothing. The same holds of VRFs. Neither creation panics.
  -- The VNI is at most the largest `int`.
  pub create_by_vni :
      (vni : ℕ) (w : W)
      → vni ≤ max_int
      → (create_bridge vtepdb cdb net (bd_name_by_vni vni) w
          ≡ some (
              if leb net.bridge_vni_min vni && leb vni net.bridge_vni_max
              then ensure_bridge vtepdb cdb net (bd_name_by_vni vni) (pos vni) w
              else (some (errorf "[Driver] Invalid bridge name %s"), w)))
        × (create_vrf vtepdb cdb net (vrf_name_by_vni vni) w
            ≡ some (
                if leb net.vrf_l3_vni_min vni && leb vni net.vrf_l3_vni_max
                then ensure_vrf vtepdb cdb net (vrf_name_by_vni vni) (pos vni) w
                else (some (errorf "[Driver] Invalid vrf name %s"), w)))
  unfolding create_bridge create_vrf vni_in_range
  create_by_vni vni w h =
      let names = vni_by_name_lem vni 0 h in
      (
        ap (λ o. create_bridge_of vtepdb cdb net (bd_name_by_vni vni) o w) names.0
            ∙ if_some (leb net.bridge_vni_min vni && leb vni net.bridge_vni_max) _ _,
        ap (λ o. create_vrf_of vtepdb cdb net (vrf_name_by_vni vni) o w) names.1
            ∙ if_some (leb net.vrf_l3_vni_min vni && leb vni net.vrf_l3_vni_max) _ _,
      )

  -- When a bridge exists already and its interface does not, a creation still adds the interface
  -- under the bridge's name. When a VRF exists already, a creation instead adds an interface with
  -- the bare name Bd and an empty VRF, if there is none of that name, and goes on to the ACL.
  pub create_existing :
      (name : Str) (vni : ℤ) (w : W)
      → net.bridge_exists w name ≡ true
      → net.vrf_exists w name ≡ true
      → net.bd_interface_exists w name ≡ false
      → net.bd_interface_exists w (str "Bd") ≡ false
      → (ensure_bridge vtepdb cdb net name vni w
          ≡ net.bd_interface_add (record { name = name; mac = []; vrf = [] }) w)
        × (ensure_vrf vtepdb cdb net name vni w
            ≡ interface_added vtepdb cdb net name (
                net.bd_interface_add
                  (record { name = str "Bd"; mac = local_mac (net.locator_get w); vrf = [] ∷ [] })
                  w))
  unfolding ensure_bridge ensure_vrf ensure_bd_interface
  create_existing name vni w b v i j = (rw (b, i), rw (v, j))
