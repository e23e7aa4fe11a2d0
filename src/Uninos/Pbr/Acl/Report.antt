-- ===== src/Uninos/Pbr/Acl/Report.antt =====
-- What `pbrAclCreate` reports.
use govtep.Base.{◌≡◌, refl, sym, ap, subst, ◌≢◌, ◌↔◌, none, some, Str, Error}
use govtep.Uninos.Databases.{Vtepdb, Configdb}
use govtep.Uninos.Pbr.Acl.{acl_name_of_vrf, added_acl, pbr_acl, create_pbr_acl, pbr_acl_create}

module _ {W : Type 0} (vtepdb : Vtepdb W) (cdb : Configdb W) where
  added_report :
      (r : Error × W)
      → (((added_acl vtepdb cdb r).0 ≡ none) ↔ (r.0 ≢ none)) × ((added_acl vtepdb cdb r).1 ≡ r.1)
  unfolding added_acl
  added_report (none, w) = ((λ e. cc, λ ne. absurd (ne refl)), refl)
  added_report (some e, w) = ((λ _ h. cc, λ _. refl), refl)

  create_missing :
      (vrf : Str) (w : W)
      → cdb.acl_get_by_index w (acl_name_of_vrf vrf) ≡ none
      → pbr_acl_create vtepdb cdb vrf w
        ≡ added_acl vtepdb cdb (cdb.acl_add (pbr_acl vtepdb cdb vrf w) w)
  unfolding pbr_acl_create create_pbr_acl
  create_missing vrf w missing = ap (λ o. create_pbr_acl vtepdb cdb o vrf w) missing

  -- The result is upside down: with the ACL of the VRF missing, `pbrAclCreate` returns nil exactly if
  -- the ACL could not be added. The world is the one that the addition leaves.
  pub pbr_acl_create_report :
      (vrf : Str) (w : W)
      → cdb.acl_get_by_index w (acl_name_of_vrf vrf) ≡ none
      → (((pbr_acl_create vtepdb cdb vrf w).0 ≡ none)
          ↔ ((cdb.acl_add (pbr_acl vtepdb cdb vrf w) w).0 ≢ none))
        × ((pbr_acl_create vtepdb cdb vrf w).1 ≡ (cdb.acl_add (pbr_acl vtepdb cdb vrf w) w).1)
  pbr_acl_create_report vrf w missing =
      subst
        (λ r.
          ((r.0 ≡ none) ↔ ((cdb.acl_add (pbr_acl vtepdb cdb vrf w) w).0 ≢ none))
          × (r.1 ≡ (cdb.acl_add (pbr_acl vtepdb cdb vrf w) w).1))
        (sym (create_missing vrf w missing))
        (added_report (cdb.acl_add (pbr_acl vtepdb cdb vrf w) w))
