-- ===== src/Vtep/Switches/Update/Removal.antt =====
-- Which chassis there are after the removal of a physical switch.
use govtep.Vtep.Locator.{GatewayState}
use govtep.Base.{
  ◌≡◌, refl, sym, ap, ap₂, ◌∙◌, Bool, true, false, not, ◌&&◌, ◌||◌, Option, none, some, List, [],
  ◌∷◌, if◌then◌else◌, Str, str_eq, str_eq_iff, or_false, or_true, and_true, not-not, and_absorbs,
}
use govtep.Vtep.Switches.{SwitchRow, ChassisRow, Switchdb}
use govtep.Vtep.Switches.Presence.{is_there, has_chassis, ChassisLaws}
use govtep.Vtep.Switches.Update.{
  in_world, leave_if, leave, drop_locator, after_leaving, remove_found, physical_switch_remove,
}

-- No member but the switch.
unfoldable pub only_member : List Str → Str → Bool
only_member [] uuid = true
only_member (member ∷ members) uuid = str_eq member uuid && only_member members uuid

members_of : Option ChassisRow → List Str
members_of none = []
members_of (some chassis) = chassis.gateway_chassis_members

-- Whether the chassis of a switch goes with it: outside of a group, or as its last member.
unfoldable pub takes_chassis : SwitchRow → List Str → Bool
unfolding only_member
takes_chassis ps members =
    not (str_eq ps.system_id []) && (not ps.gateway_group || only_member members ps.uuid)

unfoldable pub group_members : {W : Type 0} → Switchdb W → W → SwitchRow → List Str
unfolding members_of
group_members db w ps = members_of (db.chassis_get_by_index w ps.system_id)

module _ {W : Type 0} (db : Switchdb W) (laws : ChassisLaws db) where
  leave_others :
      (members : List Str) (ps : SwitchRow) (others : Bool) (w : W)
      → (leave db members ps others w).0 ≡ (others || not (only_member members ps.uuid))
  unfolding leave only_member
  leave_others [] ps others w = sym (or_false others)
  leave_others (member ∷ members) ps others w =
      leave_others members ps (if str_eq member ps.uuid then others else true)
        (leave_if db (str_eq member ps.uuid) ps w)
      ∙ with_first (str_eq member ps.uuid) others (only_member members ps.uuid)
    where
      with_first :
          (mine o rest : Bool)
          → ((if mine then o else true) || not rest) ≡ (o || not (mine && rest))
      with_first true o rest = refl
      with_first false true rest = refl
      with_first false false rest = refl

  has_chassis-leave_if :
      (mine : Bool) (ps : SwitchRow) (w : W) (n : Str)
      → has_chassis db (leave_if db mine ps w) n ≡ has_chassis db w n
  unfolding leave_if
  has_chassis-leave_if true ps w n = laws.del_member ps.system_id ps.uuid n w
  has_chassis-leave_if false ps w n = refl

  has_chassis-leave :
      (members : List Str) (ps : SwitchRow) (others : Bool) (w : W) (n : Str)
      → has_chassis db (leave db members ps others w).1 n ≡ has_chassis db w n
  unfolding leave
  has_chassis-leave [] ps others w n = refl
  has_chassis-leave (member ∷ members) ps others w n =
      has_chassis-leave members ps (if str_eq member ps.uuid then others else true)
        (leave_if db (str_eq member ps.uuid) ps w) n
      ∙ has_chassis-leave_if (str_eq member ps.uuid) ps w n

  module _ (vnet_remove_all : W → W)
      (kept : (w : W) (n : Str) → has_chassis db (vnet_remove_all w) n ≡ has_chassis db w n) where
    has_chassis-drop_locator :
        (row : Option Bool) (ps : SwitchRow) (g : GatewayState W) (n : Str)
        → has_chassis db (drop_locator db vnet_remove_all row ps g).world n
          ≡ has_chassis db g.world n
    unfolding drop_locator
    has_chassis-drop_locator none ps g n = refl
    has_chassis-drop_locator (some local) ps g n =
        kept (db.locator_del_by_index ps.system_id g.world).1 n
        ∙ laws.del_locator ps.system_id n g.world

    has_chassis-after_leaving :
        (ps : SwitchRow) (done others : Bool) (w : W) (n : Str)
        → has_chassis db (after_leaving db vnet_remove_all ps done (others, w)).world n
          ≡ (has_chassis db w n && not (not others && str_eq n ps.system_id))
    unfolding after_leaving
    has_chassis-after_leaving ps done false w n = laws.del_chassis ps.system_id n w
    has_chassis-after_leaving ps done true w n =
        has_chassis-drop_locator (db.locator_get_by_index w ps.system_id) ps
          (record { gateway_init_done = done; world = w }) n
        ∙ sym (and_true (has_chassis db w n))

    has_chassis-gone :
        (s : Str) (w : W) (n : Str)
        → db.chassis_get_by_index w s ≡ none
        → has_chassis db w n ≡ (has_chassis db w n && not (str_eq n s))
    unfolding has_chassis is_there
    has_chassis-gone s w n e = sym (
        and_absorbs (has_chassis db w n) (str_eq n s)
          (λ h. ap (λ m. has_chassis db w m) ((str_eq_iff n s).0 h) ∙ ap is_there e))

    has_chassis-remove_group :
        (members : List Str) (ps : SwitchRow) (done : Bool) (w : W) (n : Str)
        → has_chassis db
            (after_leaving db vnet_remove_all ps done (leave db members ps false w)).world
            n
          ≡ (has_chassis db w n && not (only_member members ps.uuid && str_eq n ps.system_id))
    has_chassis-remove_group members ps done w n =
        has_chassis-after_leaving ps done (leave db members ps false w).0
          (leave db members ps false w).1 n
        ∙ ap₂ (λ b o. b && not (not o && str_eq n ps.system_id))
            (has_chassis-leave members ps false w n) (leave_others members ps false w)
        ∙ ap (λ o. has_chassis db w n && not (o && str_eq n ps.system_id))
            (not-not (only_member members ps.uuid))

    has_chassis-remove_found :
        (found : Option ChassisRow) (ps : SwitchRow) (g : GatewayState W) (n : Str)
        → db.chassis_get_by_index g.world ps.system_id ≡ found
        → has_chassis db (remove_found db vnet_remove_all found ps g).world n ≡ (
            has_chassis db g.world n
            && not (
                (not ps.gateway_group || only_member (members_of found) ps.uuid)
                && str_eq n ps.system_id))
    unfolding remove_found members_of only_member in_world
    has_chassis-remove_found none ps g n e =
        has_chassis-gone ps.system_id g.world n e
        ∙ ap (λ b. has_chassis db g.world n && not (b && str_eq n ps.system_id))
            (sym (or_true (not ps.gateway_group)))
    has_chassis-remove_found (some chassis) ps g n e = by_group ps.gateway_group
      where
        by_group :
            (group : Bool)
            → has_chassis db
                (if group
                  then after_leaving db vnet_remove_all ps g.gateway_init_done
                      (leave db chassis.gateway_chassis_members ps false g.world)
                  else in_world db (λ w. (db.chassis_del_by_index ps.system_id w).1) g).world
                n
              ≡ (has_chassis db g.world n
                  && not (
                      (not group || only_member chassis.gateway_chassis_members ps.uuid)
                      && str_eq n ps.system_id))
        by_group true =
            has_chassis-remove_group chassis.gateway_chassis_members ps g.gateway_init_done g.world
              n
        by_group false = laws.del_chassis ps.system_id n g.world

    -- Where the server takes the writes and chassis outlive the networks, the removal of a physical
    -- switch keeps all chassis but that of its identifier, which goes exactly when the switch is
    -- outside of a group or no other member of its group is left.
    pub physical_switch_remove_lem :
        (ps : SwitchRow) (g : GatewayState W) (n : Str)
        → has_chassis db (physical_switch_remove db vnet_remove_all ps g).world n ≡ (
            has_chassis db g.world n
            && not (takes_chassis ps (group_members db g.world ps) && str_eq n ps.system_id))
    unfolding physical_switch_remove takes_chassis group_members
    physical_switch_remove_lem ps g n = by_identity (str_eq ps.system_id [])
      where
        by_identity :
            (empty : Bool)
            → has_chassis db
                (if empty
                  then g
                  else remove_found db vnet_remove_all
                      (db.chassis_get_by_index g.world ps.system_id)
                      ps
                      g).world
                n
              ≡ (has_chassis db g.world n
                  && not (
                      not empty
                      && (not ps.gateway_group
                          || only_member
                              (members_of (db.chassis_get_by_index g.world ps.system_id))
                              ps.uuid)
                      && str_eq n ps.system_id))
        by_identity true = sym (and_true (has_chassis db g.world n))
        by_identity false =
            has_chassis-remove_found (db.chassis_get_by_index g.world ps.system_id) ps g n refl
