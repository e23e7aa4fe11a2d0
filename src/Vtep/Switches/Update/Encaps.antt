-- ===== src/Vtep/Switches/Update/Encaps.antt =====
-- The encapsulation of a chassis after an update of its switch.
use govtep.Golang.Net.Mac.{is_mac}
use govtep.Base.{
  ◌≡◌, refl, sym, ap, subst, ◌∙◌, Bool, true, false, Option, none, some, List, [], ◌∷◌, ◌++◌, map,
  if◌then◌else◌, Str, str_eq, str_eq_self, either_way, Error, errorf,
}
use govtep.Vtep.Switches.{SwitchRow, EncapRow, ChassisRow, Switchdb, Fresh, vxlan, is_ip, encap_of}
use govtep.Vtep.Switches.Update.{
  OldField, NewRow, removed_encap, added_encap, swap_encap, unidentified, check_ip, encap_ip_of,
  physical_switch_update_encap_ip, route_mac_of, physical_switch_update_route_mac, update_field,
  unless_failed, physical_switch_update, old_router_mac,
}

unfoldable pub is_found : Option Str → Bool
is_found none = false
is_found (some _) = true

unfoldable pub has_encap : {W : Type 0} → Switchdb W → W → Str → Bool
unfolding is_found
has_encap db w ip = is_found (db.encap_get_by_index w vxlan ip)

unfoldable pub is_error : Error → Bool
is_error none = false
is_error (some _) = true

unfoldable pub without_id : Str → List (Str × EncapRow) → List (Str × EncapRow)
without_id id [] = []
without_id id ((j, e) ∷ rows) =
    if str_eq j id then without_id id rows else (j, e) ∷ without_id id rows

-- What the database does with the encapsulations of a chassis, `rows` with their identifiers: type
-- and address are an index of the table, so a second row with both is refused; another row gets a
-- new identifier, `next_id`.
pub record EncapLaws {W : Type 0} (db : Switchdb W) (rows : W → Str → List (Str × EncapRow))
    (next_id : W → Str) : Type 0 where
  pub listed :
      (name : Str) (c : ChassisRow) (w : W)
      → db.chassis_get_by_index w name ≡ some c
      → c.encaps ≡ map (λ r. r.0) (rows w name)
  pub refused :
      (name : Str) (e : EncapRow) (w : W)
      → is_found (db.encap_get_by_index w e.type e.ip) ≡ true
      → db.chassis_update_add_encaps name e w ≡ (some (errorf "constraint violation"), w)
  pub added :
      (name : Str) (e : EncapRow) (w : W)
      → is_found (db.encap_get_by_index w e.type e.ip) ≡ false
      → (db.chassis_update_add_encaps name e w).0 ≡ none
  pub rows-added :
      (name : Str) (e : EncapRow) (w : W)
      → is_found (db.encap_get_by_index w e.type e.ip) ≡ false
      → rows (db.chassis_update_add_encaps name e w).1 name ≡ rows w name ++ ((next_id w, e) ∷ [])
  pub removed : (name id : Str) (w : W) → (db.chassis_update_encaps_delvalue name id w).0 ≡ none
  pub rows-removed :
      (name id : Str) (w : W)
      → rows (db.chassis_update_encaps_delvalue name id w).1 name ≡ without_id id (rows w name)

module _ {W : Type 0} (db : Switchdb W) (rows : W → Str → List (Str × EncapRow)) (next_id : W → Str)
    (laws : EncapLaws db rows next_id) where
  Refused : W → Error × W → Type 0
  Refused w result = (is_error result.0 ≡ true) × (result.1 ≡ w)

  swap_encap-Refused :
      (encaps : List Str) (ps : SwitchRow) (w : W)
      → has_encap db w ps.encap_ip ≡ true
      → Refused w (swap_encap db encaps ps w)
  unfolding swap_encap has_encap Refused added_encap is_error encap_of
  swap_encap-Refused [] ps w h = (refl, refl)
  swap_encap-Refused (old ∷ []) ps w h =
      subst (λ r. Refused w (added_encap db ps.system_id old r))
        (sym (laws.refused ps.system_id (encap_of db ps) w h)) (refl, refl)
  swap_encap-Refused (old ∷ _ ∷ _) ps w h = (refl, refl)

  route_mac_of-Refused :
      (found : Option ChassisRow) (ps : SwitchRow) (w : W)
      → has_encap db w ps.encap_ip ≡ true
      → Refused w (route_mac_of db found ps w)
  unfolding route_mac_of Refused is_error
  route_mac_of-Refused none ps w h = (refl, refl)
  route_mac_of-Refused (some chassis) ps w h =
      either_way (is_mac ps.router_mac) (Refused w) (swap_encap-Refused chassis.encaps ps w h)
        (refl, refl)

  route_mac-Refused :
      (fresh : Fresh) (ps : SwitchRow) (old : Str) (w : W)
      → str_eq ps.system_id [] ≡ false
      → has_encap db w ps.encap_ip ≡ true
      → Refused w (physical_switch_update_route_mac db fresh ps old w)
  unfolding physical_switch_update_route_mac
  route_mac-Refused fresh ps old w e h =
      subst
        (λ b. Refused w (
          if b
          then unidentified db fresh (is_mac old) ps w
          else route_mac_of db (db.chassis_get_by_index w ps.system_id) ps w))
        (sym e) (route_mac_of-Refused (db.chassis_get_by_index w ps.system_id) ps w h)

  unless_failed-Refused :
      (rest : W → W) (w : W) (r : Error × W) → Refused w r → unless_failed db rest r ≡ w
  unfolding unless_failed Refused is_error
  unless_failed-Refused rest w (some e, w1) h = h.1
  unless_failed-Refused rest w (none, w1) h = cc

  -- Where the database refuses a second encapsulation with a type and address, an update of the
  -- router MAC of a switch with an identifier is an error and changes nothing as long as the
  -- switch's address has an encapsulation; and an update of the row that comes to the router MAC
  -- first ends there, whatever other columns it has, and changes nothing.
  pub physical_switch_update_route_mac_refused :
      (fresh : OldField → Fresh) (row : NewRow) (old : Str) (fields : List OldField) (w : W)
      → str_eq row.table.system_id [] ≡ false
      → has_encap db w row.table.encap_ip ≡ true
      → (is_error
            (physical_switch_update_route_mac db (fresh (old_router_mac old)) row.table old w).0
          ≡ true)
        × ((physical_switch_update_route_mac db (fresh (old_router_mac old)) row.table old w).1 ≡ w)
        × (physical_switch_update db fresh row (old_router_mac old ∷ fields) w ≡ w)
  unfolding physical_switch_update update_field Refused
  physical_switch_update_route_mac_refused fresh row old fields w e h =
      let refused = route_mac-Refused (fresh (old_router_mac old)) row.table old w e h in
      (
        refused.0,
        refused.1,
        unless_failed-Refused (physical_switch_update db fresh row fields) w
            (physical_switch_update_route_mac db (fresh (old_router_mac old)) row.table old w)
            refused,
      )

  Swapped : SwitchRow → W → Error × W → Type 0
  Swapped ps w result =
      (result.0 ≡ none) × (rows result.1 ps.system_id ≡ (next_id w, encap_of db ps) ∷ [])

  removed_encap_done : (p : Error × W) → p.0 ≡ none → removed_encap db p ≡ p
  unfolding removed_encap
  removed_encap_done (none, w) h = refl
  removed_encap_done (some e, w) h = cc

  added_encap_done :
      (name old : Str) (p : Error × W)
      → p.0 ≡ none
      → added_encap db name old p ≡ db.chassis_update_encaps_delvalue name old p.1
  unfolding added_encap
  added_encap_done name old (none, w) h =
      removed_encap_done (db.chassis_update_encaps_delvalue name old w) (laws.removed name old w)
  added_encap_done name old (some e, w) h = cc

  without_first :
      (id : Str) (e : EncapRow) (j : Str) (f : EncapRow)
      → str_eq j id ≡ false
      → without_id id ((id, e) ∷ (j, f) ∷ []) ≡ (j, f) ∷ []
  unfolding without_id
  without_first id e j f h = rw (str_eq_self id, h) refl

  swap_encap-Swapped :
      (id : Str) (e : EncapRow) (ps : SwitchRow) (w : W)
      → rows w ps.system_id ≡ (id, e) ∷ []
      → has_encap db w ps.encap_ip ≡ false
      → str_eq (next_id w) id ≡ false
      → Swapped ps w (swap_encap db (id ∷ []) ps w)
  unfolding swap_encap has_encap Swapped encap_of
  swap_encap-Swapped id e ps w r free n =
      let name = ps.system_id in
      let row = encap_of db ps in
      let w1 = (db.chassis_update_add_encaps name row w).1 in
      subst (Swapped ps w)
        (sym (
          added_encap_done name id (db.chassis_update_add_encaps name row w)
            (laws.added name row w free)))
        (
          laws.removed name id w1,
          laws.rows-removed name id w1
              ∙ ap (without_id id)
                  (laws.rows-added name row w free ∙ ap (λ l. l ++ ((next_id w, row) ∷ [])) r)
              ∙ without_first id e (next_id w) row n,
        )

  check_ip-Swapped :
      (id : Str) (e : EncapRow) (ps : SwitchRow) (w : W)
      → rows w ps.system_id ≡ (id, e) ∷ []
      → has_encap db w ps.encap_ip ≡ false
      → str_eq (next_id w) id ≡ false
      → is_ip ps.encap_ip ≡ true
      → Swapped ps w (check_ip db (id ∷ []) ps w)
  unfolding check_ip
  check_ip-Swapped id e ps w r free n valid =
      let swapped = swap_encap-Swapped id e ps w r free n in
      either_way (str_eq ps.encap_ip []) (Swapped ps w) swapped (
        subst
          (λ b. Swapped ps w (
            if b
            then swap_encap db (id ∷ []) ps w
            else (some (errorf "Invalid encap_ip %s, not update"), w)))
          (sym valid) swapped)

  encap_ip_of-Swapped :
      (found : Option ChassisRow) (c : ChassisRow) (id : Str) (e : EncapRow) (ps : SwitchRow)
      (w : W)
      → found ≡ some c
      → c.encaps ≡ id ∷ []
      → Swapped ps w (check_ip db (id ∷ []) ps w)
      → Swapped ps w (encap_ip_of db found ps w)
  unfolding encap_ip_of
  encap_ip_of-Swapped found c id e ps w there one h =
      subst (λ o. Swapped ps w (encap_ip_of db o ps w)) (sym there)
        (subst (λ l. Swapped ps w (check_ip db l ps w)) (sym one) h)

  -- Where the database takes the writes under a new identifier, a chassis with one encapsulation
  -- whose switch has a new valid address, which no encapsulation has, has afterwards exactly the
  -- new encapsulation, and there is no error.
  pub physical_switch_update_encap_ip_lem :
      (fresh : Fresh) (c : ChassisRow) (id : Str) (e : EncapRow) (ps : SwitchRow) (old : Str)
      (w : W)
      → str_eq ps.system_id [] ≡ false
      → db.chassis_get_by_index w ps.system_id ≡ some c
      → rows w ps.system_id ≡ (id, e) ∷ []
      → has_encap db w ps.encap_ip ≡ false
      → str_eq (next_id w) id ≡ false
      → is_ip ps.encap_ip ≡ true
      → ((physical_switch_update_encap_ip db fresh ps old w).0 ≡ none)
        × (rows (physical_switch_update_encap_ip db fresh ps old w).1 ps.system_id
            ≡ (next_id w, encap_of db ps) ∷ [])
  unfolding physical_switch_update_encap_ip Swapped
  physical_switch_update_encap_ip_lem fresh c id e ps old w identity there r free n valid =
      subst
        (λ b. Swapped ps w (
          if b
          then unidentified db fresh (is_ip old) ps w
          else encap_ip_of db (db.chassis_get_by_index w ps.system_id) ps w))
        (sym identity)
        (encap_ip_of-Swapped (db.chassis_get_by_index w ps.system_id) c id e ps w there
          (laws.listed ps.system_id c w there ∙ ap (map (λ r. r.0)) r)
          (check_ip-Swapped id e ps w r free n valid))
