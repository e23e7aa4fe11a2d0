-- ===== src/Tai/Registry/History.antt =====
-- The registry against a specification that remembers the last registration only.
use govtep.Base.{
  String, ◌≡◌, refl, inl, inr, false, Option, none, some, List, [], ◌∷◌, arith, eq_iff,
  if◌then◌else◌, Bool-cases, GoError, errorf,
}
use govtep.Ovsdb.Rows.{Fields, lookup}
use govtep.Ovsdb.Rows.Optimize.{lookup-assign}
use govtep.Tai.Registry.{
  TaiDriver, Active, active, inactive, init, remove_key, register_tai_driver_handler,
  unregister_tai_driver_handler, active_tai_driver,
}
use text.Mathlib.Text.{◌==◌ as text_eq}
use text.Mathlib.TextPositions.{eq_refl}

pub data Call (H : Type 0) : Type 0 where
  register : String → H → Call H
  unregister : String → Call H

module _ {H : Type 0} where
  step : TaiDriver H → Call H → TaiDriver H
  step tai (register name handler) = register_tai_driver_handler name handler tai
  step tai (unregister name) = unregister_tai_driver_handler name tai

  pub run : TaiDriver H → List (Call H) → TaiDriver H
  unfolding step
  run tai [] = tai
  run tai (c ∷ cs) = run (step tai c) cs

  -- The specification remembers the last registration only.
  after : Option (String × H) → Call H → Option (String × H)
  after last (register name handler) = some (name, handler)
  after none (unregister name) = none
  after (some (n, h)) (unregister name) = if text_eq n name then none else some (n, h)

  pub last_registered : Option (String × H) → List (Call H) → Option (String × H)
  unfolding after
  last_registered last [] = last
  last_registered last (c ∷ cs) = last_registered (after last c) cs

  abbrev pub Agrees : Option (String × H) → Active H → Type 0
  Agrees none a = (e : GoError) × (a ≡ inactive e)
  Agrees (some (n, h)) a =
      if text_eq n "" then ((e : GoError) × (a ≡ inactive e)) else (a ≡ active h)

  Stands : Option (String × H) → TaiDriver H → Type 0
  Stands none tai = lookup tai.active_driver tai.handlers ≡ none
  Stands (some (n, h)) tai = (tai.active_driver ≡ n) × (lookup n tai.handlers ≡ some h)

  lookup-remove_key :
      (k j : String) (m : Fields H)
      → lookup j (remove_key k m) ≡ (if text_eq k j then none else lookup j m)
  unfolding lookup remove_key
  lookup-remove_key k j [] = ground arith
  lookup-remove_key k j ((i, v) ∷ m) =
      ground (arith, lookup-remove_key k j m, eq_iff i k, eq_iff i j, eq_iff k j)

  step-Stands :
      (last : Option (String × H)) (tai : TaiDriver H) (c : Call H)
      → Stands last tai
      → Stands (after last c) (step tai c)
  unfolding step after Stands register_tai_driver_handler unregister_tai_driver_handler
  step-Stands last tai (register name handler) s =
      (refl, rw (lookup-assign name name handler tai.handlers, eq_refl name))
  step-Stands none tai (unregister name) s =
      ground (arith, lookup-remove_key name tai.active_driver tai.handlers)
  step-Stands (some (n, h)) tai (unregister name) s = elim (Bool-cases (text_eq n name)) [
    | inl e ↦ rw e (
        ground (
          arith,
          lookup-remove_key name tai.active_driver tai.handlers,
          eq_iff n name,
          eq_iff name tai.active_driver,
        ))
    | inr e ↦
        rw e
          (s.0, ground (arith, lookup-remove_key name n tai.handlers, eq_iff n name, eq_iff name n))
  ]

  run-Stands :
      (last : Option (String × H)) (tai : TaiDriver H) (cs : List (Call H))
      → Stands last tai
      → Stands (last_registered last cs) (run tai cs)
  unfolding run last_registered
  run-Stands last tai [] s = s
  run-Stands last tai (c ∷ cs) s =
      run-Stands (after last c) (step tai c) cs (step-Stands last tai c s)

  Stands-Agrees :
      (last : Option (String × H)) (tai : TaiDriver H)
      → Stands last tai
      → Agrees last (active_tai_driver tai)
  unfolding Stands active_tai_driver
  Stands-Agrees none tai s = elim (Bool-cases (text_eq tai.active_driver "")) [
    | inl e ↦ (errorf "NULL ActiveDriver", rw e)
    | inr e ↦ (errorf "NULL ActiveDriver Register", rw (e, s))
  ]
  Stands-Agrees (some (n, h)) tai s = elim (Bool-cases (text_eq n "")) [
    | inl e ↦ rw e (errorf "NULL ActiveDriver", rw (s.0, e))
    | inr e ↦ rw e (ground (arith, eq_iff n "", eq_iff tai.active_driver ""))
  ]

  -- After any history of registrations and unregistrations the active driver is the handler that was
  -- registered last, as long as its name is not empty and has not been unregistered since; otherwise
  -- asking for it is an error.
  pub active_tai_driver-run :
      (cs : List (Call H)) → Agrees (last_registered none cs) (active_tai_driver (run init cs))
  unfolding init
  active_tai_driver-run cs =
      Stands-Agrees _ _ (run-Stands none init cs (unfold Stands lookup in refl))

  -- A handler registered under a name that is not empty is the active one.
  pub active-register :
      (name : String) (handler : H) (tai : TaiDriver H)
      → text_eq name "" ≡ false
      → active_tai_driver (register_tai_driver_handler name handler tai) ≡ active handler
  unfolding active_tai_driver register_tai_driver_handler
  active-register name handler tai h =
      rw (h, lookup-assign name name handler tai.handlers, eq_refl name)
