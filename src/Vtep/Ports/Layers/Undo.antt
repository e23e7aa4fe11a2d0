-- ===== src/Vtep/Ports/Layers/Undo.antt =====
-- What the removal of an L2 port does: it undoes a creation, or nothing.
use govtep.Base.{◌≡◌, refl, ap, ◌∙◌, inl, inr, true, none, some, [], ◌∷◌, Bool-cases, Str}
use govtep.Vtep.Ports.Databases.{TableL2port, Portdb}
use govtep.Vtep.Ports.Info.{PortInfo}
use govtep.Vtep.Ports.Layers.{table_l2port, l2port_unless, l2port_create, del_l2port, l2port_remove}

module _ {W : Type 0} (db : Portdb W) where
  -- A port that the database does not have is not removed.
  pub l2port_remove-missing :
      (port : PortInfo) (w : W)
      → db.l2port_get_by_index1 w port.name ≡ none
      → (l2port_remove db port w).1 ≡ w
  unfolding l2port_remove del_l2port
  l2port_remove-missing port w h = elim (Bool-cases (db.bridge_domain_exists w port.bd)) [
    | inl b ↦ rw (b, h) refl
    | inr b ↦ rw b refl
  ]

  -- What the two writes of a bridge domain's ports promise: after an addition the row is found
  -- under a new identifier, the bridge domain is still there, and taking that identifier out
  -- restores the database.
  pub record L2portLaws : Type 0 where
    pub found :
        (bd : Str) (row : TableL2port) (w : W)
        → (id : Str) × (db.l2port_get_by_index1
              (db.bridge_domain_update_add_l2ports bd row w).1
              row.name
            ≡ some (record row { uuid = id }))
          × (db.bridge_domain_update_l2ports_delvalue bd
                (id ∷ [])
                (db.bridge_domain_update_add_l2ports bd row w).1
              ≡ (none, w))
    pub bridge_domain_kept :
        (bd name : Str) (row : TableL2port) (w : W)
        → db.bridge_domain_exists (db.bridge_domain_update_add_l2ports bd row w).1 name
          ≡ db.bridge_domain_exists w name

  -- In a bridge domain that exists, the removal of a port that was not there before its creation
  -- restores the database, without an error.
  pub l2port_remove-create :
      (port : PortInfo) (w : W)
      → L2portLaws
      → db.bridge_domain_exists w port.bd ≡ true
      → db.l2port_get_by_index1 w port.name ≡ none
      → l2port_remove db port (l2port_create db port w).1 ≡ (none, w)
  unfolding l2port_remove l2port_create l2port_unless del_l2port table_l2port
  l2port_remove-create port w laws b h =
      let (id, e, undone) = laws.found port.bd (table_l2port port) w in
      rw (b, h, laws.bridge_domain_kept port.bd port.bd (table_l2port port) w, b)
        (ap
            (λ o.
              del_l2port db o port
                (db.bridge_domain_update_add_l2ports port.bd (table_l2port port) w).1)
            e
          ∙ undone)
