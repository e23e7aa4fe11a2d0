-- ===== src/Tai/Registry.antt =====
-- The driver registry of tai/tai.go: `taiDriver`, `RegisterTaiDriverHandler`,
-- `UnRegisterTaiDriverHandler` and `activeTaiDriver`. Each holds the mutex for its whole run, so a
-- call is one step. `H` is the type of handlers.
pub mod History
use govtep.Base.{String, none, some, [], ◌∷◌, if◌then◌else◌, GoError, errorf}
use govtep.Ovsdb.Rows.{Fields, lookup, assign}
use text.Mathlib.Text.{◌==◌ as text_eq}

pub record TaiDriver (H : Type 0) : Type 0 where
  pub active_driver : String
  pub handlers : Fields H

pub data Active (H : Type 0) : Type 0 where
  active : H → Active H
  inactive : GoError → Active H

module _ {H : Type 0} where
  -- The package variable `tai` at the start of the program.
  unfoldable pub init : TaiDriver H
  init = record { active_driver = ""; handlers = [] }

  -- `delete(m, k)`
  pub remove_key : String → Fields H → Fields H
  remove_key k [] = []
  remove_key k ((j, h) ∷ m) =
      let rest = remove_key k m in if text_eq j k then rest else (j, h) ∷ rest

  pub register_tai_driver_handler : String → H → TaiDriver H → TaiDriver H
  unfolding assign
  register_tai_driver_handler name handler tai = record {
    active_driver = name;
    handlers = assign name handler tai.handlers;
  }

  pub unregister_tai_driver_handler : String → TaiDriver H → TaiDriver H
  unfolding remove_key
  unregister_tai_driver_handler name tai = record tai { handlers = remove_key name tai.handlers }

  unfoldable pub active_tai_driver : TaiDriver H → Active H
  unfolding lookup
  active_tai_driver tai =
      if text_eq tai.active_driver ""
      then inactive (errorf "NULL ActiveDriver")
      else elim (lookup tai.active_driver tai.handlers) [
        | some handler ↦ active handler
        | none ↦ inactive (errorf "NULL ActiveDriver Register")
      ]
