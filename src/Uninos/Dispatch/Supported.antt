-- ===== src/Uninos/Dispatch/Supported.antt =====
-- Which objects the registered driver handles.
use govtep.Base.{◌≡◌, refl, ap, ◌∙◌, ◌↔◌, none, some, errorf}
use govtep.Ovsdb.Rows.{Fields}
use govtep.Tai.Object.{ObjId, mcast_fdb}
use govtep.Tai.Registry.History.{active-register}
use govtep.Tai.Handler.Dispatch.{calls_active}
use govtep.Tai.Registry.{TaiDriver, active_tai_driver, active}
use govtep.Tai.Handler.{DriverHandler, create_object, remove_object, add_object_attr}
use govtep.Uninos.Dispatch.{ModuleApi, ModuleApis, module_api, supported, unos_driver, init_driver}

module _ {W O V : Type 0} (apis : ModuleApis W O V) where
  init_active :
      (tai : TaiDriver (DriverHandler W O V))
      → active_tai_driver (init_driver apis tai) ≡ active (unos_driver apis)
  unfolding init_driver
  init_active tai = active-register "UNOS" (unos_driver apis) tai refl

  driver_call :
      (id : ObjId) (obj : O) (attrs : Fields V) (api : ModuleApi W O V) (w : W)
      → module_api apis id ≡ some api
      → ((unos_driver apis).tai_create_object id obj w ≡ api.create obj w)
        × ((unos_driver apis).tai_remove_object id obj w ≡ api.remove obj w)
        × ((unos_driver apis).tai_add_object_attr id obj attrs w ≡ api.add_attr obj attrs w)
  unfolding unos_driver
  driver_call id obj attrs api w h = (
    ap (λ o. supported apis o (λ api. api.create obj) w) h,
    ap (λ o. supported apis o (λ api. api.remove obj) w) h,
    ap (λ o. supported apis o (λ api. api.add_attr obj attrs) w) h,
  )

  module_api_iff : (id : ObjId) → (module_api apis id ≡ none) ↔ (id ≡ mcast_fdb)
  unfolding module_api
  module_api_iff mcast_fdb = (λ _. refl, λ _. refl)
  module_api_iff _ = (λ e. cc, λ e. cc)

  create_mcast :
      (obj : O) (w : W)
      → (unos_driver apis).tai_create_object mcast_fdb obj w
        ≡ (some (errorf "[Driver] unspported object %v"), w)
  unfolding unos_driver
  create_mcast obj w = refl

  -- Once the driver has been initialised, whatever was registered before, the creation and the
  -- removal of an object and the addition of attributes go to the module of its kind. Exactly the
  -- multicast forwarding entries have no module: their creation is an error and changes nothing.
  pub init_driver_lem :
      (tai : TaiDriver (DriverHandler W O V)) (id : ObjId) (obj : O) (attrs : Fields V)
      (api : ModuleApi W O V) (w : W)
      → module_api apis id ≡ some api
      → (create_object (init_driver apis tai) id obj w ≡ api.create obj w)
        × (remove_object (init_driver apis tai) id obj w ≡ api.remove obj w)
        × (add_object_attr (init_driver apis tai) id obj attrs w ≡ api.add_attr obj attrs w)
        × ((kind : ObjId) → (module_api apis kind ≡ none) ↔ (kind ≡ mcast_fdb))
        × (create_object (init_driver apis tai) mcast_fdb obj w
            ≡ (some (errorf "[Driver] unspported object %v"), w))
  init_driver_lem tai id obj attrs api w h =
      let through =
        calls_active (init_driver apis tai) (unos_driver apis) id obj attrs w (init_active tai) in
      let mcast =
        calls_active (init_driver apis tai) (unos_driver apis) mcast_fdb obj attrs w
          (init_active tai) in
      let call = driver_call id obj attrs api w h in
      (
        through.0 ∙ call.0,
        through.1 ∙ call.1,
        through.2 ∙ call.2,
        module_api_iff,
        mcast.0 ∙ create_mcast obj w,
      )
