-- ===== src/Tai/Handler/Dispatch.antt =====
-- What a row update makes the driver do.
use govtep.Base.{◌≡◌, refl, ap, ◌∙◌, Option, none, some, [], GoError, Error, Action}
use govtep.Ovsdb.Rows.{Value, Fields, Row, RowUpdate, insert, delete, update}
use govtep.Tai.Object.{ObjId}
use govtep.Tai.Registry.{TaiDriver, active_tai_driver, active, inactive}
use govtep.Tai.Attrs.{AttrChanges, attr_changes}
use govtep.Tai.Handler.{
  DriverHandler, row_to_obj, row_to_attrs, Env, with_driver, create_object, remove_object,
  add_object_attr, del_object_attr, set_object_attr, create_converted, tai_create_obj,
  remove_converted, tai_remove_obj, apply_changes, update_converted, tai_update_obj, apply_op,
}
use govtep.Tai.Attrs.Diff.{attr_changes-del}

module _ {W O V : Type 0} (tai : TaiDriver (DriverHandler W O V)) where
  -- Each call through the registry, with and without an active driver.
  with_inactive :
      (e : GoError) (call : DriverHandler W O V → Action W Error) (w : W)
      → active_tai_driver tai ≡ inactive e
      → with_driver tai (active_tai_driver tai) call w ≡ (some e, w)
  unfolding with_driver
  with_inactive e call w h = rw (h, with_driver)

  with_active :
      (d : DriverHandler W O V) (call : DriverHandler W O V → Action W Error) (w : W)
      → active_tai_driver tai ≡ active d
      → with_driver tai (active_tai_driver tai) call w ≡ call d w
  unfolding with_driver
  with_active d call w h = rw (h, with_driver)

  -- With an active driver the calls through the registry are its own.
  pub calls_active :
      (d : DriverHandler W O V) (id : ObjId) (obj : O) (attrs : Fields V) (w : W)
      → active_tai_driver tai ≡ active d
      → (create_object tai id obj w ≡ d.tai_create_object id obj w)
        × (remove_object tai id obj w ≡ d.tai_remove_object id obj w)
        × (add_object_attr tai id obj attrs w ≡ d.tai_add_object_attr id obj attrs w)
  unfolding create_object remove_object add_object_attr
  calls_active d id obj attrs w h = (
    with_active d (λ d. d.tai_create_object id obj) w h,
    with_active d (λ d. d.tai_remove_object id obj) w h,
    with_active d (λ d. d.tai_add_object_attr id obj attrs) w h,
  )

module _ {W F R O V : Type 0} (env : Env W F R O V) (tai : TaiDriver (DriverHandler W O V)) where
  create_converted_inactive :
      (e : GoError) (id : ObjId) (c : Option O × Fields V) (w : W)
      → active_tai_driver tai ≡ inactive e
      → create_converted env tai id c w ≡ w
  unfolding create_converted
  create_converted_inactive e id (none, attrs) w h = refl
  create_converted_inactive e id (some obj, attrs) w h = rw (h, with_driver)

  remove_converted_inactive :
      (e : GoError) (id : ObjId) (c : Option O × Fields V) (w : W)
      → active_tai_driver tai ≡ inactive e
      → remove_converted env tai id c w ≡ w
  unfolding remove_converted
  remove_converted_inactive e id (none, attrs) w h =
      ap (λ x. x.1) (with_inactive tai e (λ d. d.tai_del_object_attr id none attrs) w h)
  remove_converted_inactive e id (some obj, attrs) w h =
      ap (λ x. (remove_object tai id obj x.1).1)
        (with_inactive tai e (λ d. d.tai_del_object_attr id (some obj) attrs) w h)
      ∙ ap (λ x. x.1) (with_inactive tai e (λ d. d.tai_remove_object id obj) w h)

  update_converted_inactive :
      (e : GoError) (id : ObjId) (c : Option O × Fields V) (oldattrs : Fields V) (w : W)
      → active_tai_driver tai ≡ inactive e
      → update_converted env tai id c oldattrs w ≡ w
  unfolding update_converted
  update_converted_inactive e id (none, attrs) oldattrs w h = refl
  update_converted_inactive e id (some obj, attrs) oldattrs w h =
      let c = attr_changes env.deep_equal attrs oldattrs in
      ap (λ x. (set_object_attr tai id obj c.set (del_object_attr tai id (some obj) c.del x.1).1).1)
        (with_inactive tai e (λ d. d.tai_add_object_attr id obj c.add) w h)
      ∙ ap (λ x. (set_object_attr tai id obj c.set x.1).1)
          (with_inactive tai e (λ d. d.tai_del_object_attr id (some obj) c.del) w h)
      ∙ ap (λ x. x.1) (with_inactive tai e (λ d. d.tai_set_object_attr id obj c.set) w h)

  apply_changes_active :
      (d : DriverHandler W O V) (id : ObjId) (obj : O) (c : AttrChanges V) (w : W)
      → active_tai_driver tai ≡ active d
      → apply_changes env tai id obj c w
        ≡ (d.tai_set_object_attr id obj c.set
            (d.tai_del_object_attr id
              (some obj)
              c.del
              (d.tai_add_object_attr id obj c.add w).1).1).1
  unfolding apply_changes
  apply_changes_active d id obj c w h =
      ap (λ x. (set_object_attr tai id obj c.set (del_object_attr tai id (some obj) c.del x.1).1).1)
        (with_active tai d (λ d. d.tai_add_object_attr id obj c.add) w h)
      ∙ ap (λ x. (set_object_attr tai id obj c.set x.1).1)
          (with_active tai d (λ d. d.tai_del_object_attr id (some obj) c.del) _ h)
      ∙ ap (λ x. x.1) (with_active tai d (λ d. d.tai_set_object_attr id obj c.set) _ h)

  -- Without an active driver an update of any kind only converts its rows: the state afterwards is
  -- the one that the conversions leave.
  pub apply_op_inactive :
      (e : GoError) (id : ObjId) (u : RowUpdate (Value F R)) (w : W)
      → active_tai_driver tai ≡ inactive e
      → (apply_op env tai insert id u w ≡ (row_to_obj env.modules id u.new w).1)
        × (apply_op env tai delete id u w ≡ (row_to_obj env.modules id u.old w).1)
        × (apply_op env tai update id u w
            ≡ (row_to_attrs env.modules id u.old (row_to_obj env.modules id u.new w).1).1)
  unfolding apply_op tai_create_obj tai_remove_obj tai_update_obj
  apply_op_inactive e id u w h =
      let new = row_to_obj env.modules id u.new w in
      (
        create_converted_inactive e id new.0 new.1 h,
        (let old = row_to_obj env.modules id u.old w in
            remove_converted_inactive e id old.0 old.1 h),
        (let old = row_to_attrs env.modules id u.old new.1 in
            update_converted_inactive e id new.0 old.0 old.1 h),
      )

  -- An update whose new row converts to an object calls the active driver three times: with the
  -- attributes to add, with no attributes at all to delete, and with the attributes to set.
  pub tai_update_obj_active :
      (h : DriverHandler W O V) (id : ObjId) (new old : Row (Value F R)) (w w1 w2 : W) (obj : O)
      (newattrs oldattrs : Fields V)
      → active_tai_driver tai ≡ active h
      → row_to_obj env.modules id new w ≡ ((some obj, newattrs), w1)
      → row_to_attrs env.modules id old w1 ≡ (oldattrs, w2)
      → let c = attr_changes env.deep_equal newattrs oldattrs in
        tai_update_obj env tai id new old w
        ≡ (h.tai_set_object_attr id obj c.set
            (h.tai_del_object_attr id (some obj) [] (h.tai_add_object_attr id obj c.add w2).1).1).1
  unfolding tai_update_obj
  tai_update_obj_active h id new old w w1 w2 obj newattrs oldattrs a r s =
      let c = attr_changes env.deep_equal newattrs oldattrs in
      rw (r, s, tai_update_obj)
        (apply_changes_active h id obj c w2 a
          ∙ ap
              (λ del.
                (h.tai_set_object_attr id obj c.set
                  (h.tai_del_object_attr id (some obj) del
                    (h.tai_add_object_attr id obj c.add w2).1).1).1)
              (attr_changes-del env.deep_equal newattrs oldattrs))
