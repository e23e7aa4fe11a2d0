-- ===== src/Vtep/Switches/Presence.antt =====
-- Which chassis there are after the creation of a physical switch.
use govtep.Base.{
  ◌≡◌, refl, sym, ap, ◌∙◌, Bool, true, false, not, ◌&&◌, ◌||◌, Option, none, some, [], ◌∷◌,
  if◌then◌else◌, Str, str_eq, str_eq_iff, or_false, or_absorbs, either_way, GoError,
}
use govtep.Vtep.Switches.{
  SwitchRow, EncapRow, ChassisRow, insert_encap, insert_chassis, Switchdb, Fresh, fault_of,
  set_fault, check_physical_switch_valid, chassis_of, encap_of, insert_with, insert_unless,
  chassis_create, drop_remote, join, join_or_add, identify, create_valid, create_checked,
  physical_switch_create,
}

unfoldable pub is_there : Option ChassisRow → Bool
is_there none = false
is_there (some _) = true

unfoldable pub has_chassis : {W : Type 0} → Switchdb W → W → Str → Bool
unfolding is_there
has_chassis db w name = is_there (db.chassis_get_by_index w name)

-- A server that takes the writes: which chassis there are afterwards. The other tables are not those
-- of chassis.
pub record ChassisLaws {W : Type 0} (db : Switchdb W) : Type 0 where
  pub set_fault :
      (s status n : Str) (w : W)
      → has_chassis db (db.physical_switch_set_fault_status s status w).1 n ≡ has_chassis db w n
  pub set_switch :
      (s : Str) (ps : SwitchRow) (n : Str) (w : W)
      → has_chassis db (db.physical_switch_set s ps w).1 n ≡ has_chassis db w n
  pub add_member :
      (c m n : Str) (w : W)
      → has_chassis db (db.chassis_update_gateway_chassis_members_addvalue c m w).1 n
        ≡ has_chassis db w n
  pub del_member :
      (c m n : Str) (w : W)
      → has_chassis db (db.chassis_update_gateway_chassis_members_delvalue c m w).1 n
        ≡ has_chassis db w n
  pub del_locator :
      (c n : Str) (w : W) → has_chassis db (db.locator_del_by_index c w).1 n ≡ has_chassis db w n
  pub insert_one :
      (c : ChassisRow) (n : Str) (w : W)
      → has_chassis db (db.transact (insert_chassis c ∷ []) w).1 n
        ≡ (has_chassis db w n || str_eq n c.name)
  pub insert_both :
      (name : Str) (e : EncapRow) (c : ChassisRow) (n : Str) (w : W)
      → has_chassis db (db.transact (insert_encap name e ∷ insert_chassis c ∷ []) w).1 n
        ≡ (has_chassis db w n || str_eq n c.name)
  pub del_chassis :
      (c n : Str) (w : W)
      → has_chassis db (db.chassis_del_by_index c w).1 n ≡ (has_chassis db w n && not (str_eq n c))

is_valid : Option (Str × GoError) → Bool
is_valid none = true
is_valid (some _) = false

-- No fault in the configuration, and an identifier.
unfoldable pub has_identity : SwitchRow → Bool
unfolding is_valid fault_of
has_identity ps = is_valid (fault_of ps) && not (str_eq ps.system_id [])

and_assoc : (a b c : Bool) → (a && (b && c)) ≡ ((a && b) && c)
and_assoc true b c = refl
and_assoc false b c = refl

module _ {W : Type 0} (db : Switchdb W) (laws : ChassisLaws db) where
  has_chassis-insert_with :
      (found : Option Str) (name : Str) (c : ChassisRow) (e : EncapRow) (w : W) (n : Str)
      → has_chassis db (insert_with db found (some name) c e w).1 n
        ≡ (has_chassis db w n || str_eq n c.name)
  unfolding insert_with
  has_chassis-insert_with none name c e w n =
      laws.insert_both name e (record c { encaps = name ∷ [] }) n w
  has_chassis-insert_with (some encap) name c e w n =
      laws.insert_one (record c { encaps = encap ∷ [] }) n w

  has_chassis-drop_remote :
      (name : Str) (row : Option Bool) (w : W) (n : Str)
      → has_chassis db (drop_remote db name row w) n ≡ has_chassis db w n
  unfolding drop_remote
  has_chassis-drop_remote name (some false) w n = laws.del_locator name n w
  has_chassis-drop_remote name (some true) w n = refl
  has_chassis-drop_remote name none w n = refl

  has_chassis-join :
      (ps : SwitchRow) (w : W) (n : Str) → has_chassis db (join db ps w) n ≡ has_chassis db w n
  unfolding join
  has_chassis-join ps w n =
      has_chassis-drop_remote ps.system_id
        (db.locator_get_by_index
          (db.chassis_update_gateway_chassis_members_addvalue ps.system_id ps.uuid w).1
          ps.system_id)
        (db.chassis_update_gateway_chassis_members_addvalue ps.system_id ps.uuid w).1 n
      ∙ laws.add_member ps.system_id ps.uuid n w

  has_chassis-identify :
      (id : Option Str) (ps : SwitchRow) (w : W) (n : Str)
      → has_chassis db (identify db id ps w) n ≡ (has_chassis db w n || false)
  unfolding identify
  has_chassis-identify none ps w n = sym (or_false (has_chassis db w n))
  has_chassis-identify (some id) ps w n =
      laws.set_switch ps.name (record ps { system_id = id }) n w
      ∙ sym (or_false (has_chassis db w n))

  has_chassis-chassis_create :
      (name : Str) (c : ChassisRow) (e : EncapRow) (w : W) (n : Str)
      → db.chassis_get_by_index w c.name ≡ none
      → has_chassis db (chassis_create db (some name) c e w).1 n
        ≡ (has_chassis db w n || str_eq n c.name)
  unfolding chassis_create insert_unless
  has_chassis-chassis_create name c e w n absent =
      ap (λ found. has_chassis db (insert_unless db found (some name) c e w).1 n) absent
      ∙ has_chassis-insert_with (db.encap_get_by_index w e.type e.ip) name c e w n

  -- A chassis that is there is one of those that are.
  has_chassis-again :
      (row : ChassisRow) (s : Str) (w : W) (n : Str)
      → db.chassis_get_by_index w s ≡ some row
      → has_chassis db w n ≡ (has_chassis db w n || str_eq n s)
  unfolding has_chassis is_there
  has_chassis-again row s w n e = sym (
      or_absorbs (has_chassis db w n) (str_eq n s)
        (λ h. ap (λ m. has_chassis db w m) ((str_eq_iff n s).0 h) ∙ ap is_there e))

  -- The chassis was there, or it is inserted.
  has_chassis-join_or_add :
      (found : Option ChassisRow) (fresh : Fresh) (name : Str) (ps : SwitchRow) (w : W) (n : Str)
      → db.chassis_get_by_index w ps.system_id ≡ found
      → fresh.row_name ≡ some name
      → has_chassis db (join_or_add db found fresh ps w) n
        ≡ (has_chassis db w n || str_eq n ps.system_id)
  unfolding join_or_add chassis_of encap_of
  has_chassis-join_or_add none fresh name ps w n e f =
      ap
        (λ r.
          has_chassis db (chassis_create db r (chassis_of db ps fresh.host) (encap_of db ps) w).1 n)
        f
      ∙ has_chassis-chassis_create name (chassis_of db ps fresh.host) (encap_of db ps) w n e
  has_chassis-join_or_add (some row) fresh name ps w n e f =
      either_way ps.gateway_group (λ t. has_chassis db t n ≡ has_chassis db w n)
        (has_chassis-join ps w n) refl
      ∙ has_chassis-again row ps.system_id w n e

  has_chassis-create_valid :
      (fresh : Fresh) (name : Str) (ps : SwitchRow) (w : W) (n : Str)
      → fresh.row_name ≡ some name
      → has_chassis db (create_valid db fresh ps w) n
        ≡ (has_chassis db w n || (not (str_eq ps.system_id []) && str_eq n ps.system_id))
  unfolding create_valid
  has_chassis-create_valid fresh name ps w n f = by_identity (str_eq ps.system_id [])
    where
      by_identity :
          (empty : Bool)
          → has_chassis db
              (if empty
                then identify db fresh.system_id ps w
                else join_or_add db (db.chassis_get_by_index w ps.system_id) fresh ps w)
              n
            ≡ (has_chassis db w n || (not empty && str_eq n ps.system_id))
      by_identity true = has_chassis-identify fresh.system_id ps w n
      by_identity false =
          has_chassis-join_or_add (db.chassis_get_by_index w ps.system_id) fresh name ps w n refl f

  has_chassis-create_checked :
      (fault : Option (Str × GoError)) (fresh : Fresh) (name : Str) (ps : SwitchRow) (w : W)
      (n : Str)
      → fresh.row_name ≡ some name
      → has_chassis db (create_checked db fresh ps (set_fault db ps.name fault w)) n ≡ (
          has_chassis db w n
          || (is_valid fault && (not (str_eq ps.system_id []) && str_eq n ps.system_id)))
  unfolding create_checked set_fault is_valid
  has_chassis-create_checked none fresh name ps w n f =
      has_chassis-create_valid fresh name ps (db.physical_switch_set_fault_status ps.name [] w).1 n
        f
      ∙ ap (λ b. b || (not (str_eq ps.system_id []) && str_eq n ps.system_id))
          (laws.set_fault ps.name [] n w)
  has_chassis-create_checked (some (status, e)) fresh name ps w n f =
      laws.set_fault ps.name status n w ∙ sym (or_false (has_chassis db w n))

  -- Where the server takes the writes and a name for a new row is at hand, the creation of a
  -- physical switch keeps all chassis and adds that of the switch's identifier exactly when the
  -- configuration is valid and has one, whether it is there already, joined by a member of a group
  -- or inserted.
  pub physical_switch_create_lem :
      (fresh : Fresh) (name : Str) (ps : SwitchRow) (w : W) (n : Str)
      → fresh.row_name ≡ some name
      → has_chassis db (physical_switch_create db fresh ps w) n
        ≡ (has_chassis db w n || (has_identity ps && str_eq n ps.system_id))
  unfolding physical_switch_create check_physical_switch_valid has_identity
  physical_switch_create_lem fresh name ps w n f =
      has_chassis-create_checked (fault_of ps) fresh name ps w n f
      ∙ ap (λ b. has_chassis db w n || b)
          (and_assoc (is_valid (fault_of ps)) (not (str_eq ps.system_id []))
            (str_eq n ps.system_id))
