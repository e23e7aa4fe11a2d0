-- ===== src/Uninos/Ports/Bridges.antt =====
-- The ports of a bridge after the creation of a port.
use govtep.Base.{◌≡◌, ap, ◌∙◌, false, none, some, List, [], ◌∷◌, if◌then◌else◌, Str, GoError, Error}
use govtep.Uninos.Ports.{L2portObj, Portdb, with_interface, with_bridge_port, create_l2port}

-- Setting a column replaces what it held.
abbrev pub SetReplaces : {W : Type 0} → Portdb W → (W → Str → List Str) → Type 0
SetReplaces {W} db ports =
    (bridge uuid : Str) (w : W)
    → ports (db.bridge_set_bridge_ports bridge uuid w).1 bridge ≡ uuid ∷ []

refused : {A : Type 0} (err : GoError) → ◌≡◌ {A = Error} (some err) none → A
refused err e = cc

module _ {W : Type 0} (db : Portdb W) (ports : W → Str → List Str)
    (replaces : SetReplaces db ports) where
  ports-with_interface :
      (obj : L2portObj) (p : (Str × Error) × W) (id : Str)
      → p.0 ≡ (id, none)
      → ports (with_interface db obj p).1 obj.bridge_name ≡ id ∷ []
  unfolding with_interface
  ports-with_interface obj ((uuid, none), w) id e =
      replaces obj.bridge_name uuid w ∙ ap (λ q. q.0 ∷ []) e
  ports-with_interface obj ((uuid, some err), w) id e = refused err (ap (λ q. q.1) e)

  ports-with_bridge_port :
      (obj : L2portObj) (p : Error × W) (id : Str)
      → p.0 ≡ none
      → (db.interface_add obj.name p.1).0 ≡ (id, none)
      → ports (with_bridge_port db obj p).1 obj.bridge_name ≡ id ∷ []
  unfolding with_bridge_port
  ports-with_bridge_port obj (none, w) id e h =
      ports-with_interface obj (db.interface_add obj.name w) id h
  ports-with_bridge_port obj (some err, w) id e h = refused err e

  -- Where setting a column replaces what it held and the writes are taken, a new port leaves its
  -- bridge with the new interface as its only port, whichever ports the bridge had before.
  pub create_l2port_replaces :
      (obj : L2portObj) (id : Str) (w : W)
      → db.bridge_port_exists w obj ≡ false
      → (db.bridge_port_add obj w).0 ≡ none
      → (db.interface_add obj.name (db.bridge_port_add obj w).1).0 ≡ (id, none)
      → ports (create_l2port db obj w).1 obj.bridge_name ≡ id ∷ []
  unfolding create_l2port
  create_l2port_replaces obj id w free added made =
      ap
        (λ b.
          ports (if b then (none, w) else with_bridge_port db obj (db.bridge_port_add obj w)).1
            obj.bridge_name)
        free
      ∙ ports-with_bridge_port obj (db.bridge_port_add obj w) id added made
