-- ===== src/Tai/Handler.antt =====
-- The handling of one row update in tai/tai.go, and `taiNotifyUpdate`.
-- `W` is the state of the world that the driver and the conversions act on, `O` the type of objects,
-- `V` of attribute values; the values of a row are `Value F R`. Logging is left out.
pub mod Dispatch
use govtep.Base.{String, Bool, Option, none, some, List, [], ◌∷◌, Error, Action}
use govtep.Golang.Int.{ℤ}
use govtep.Ovsdb.Rows.{Value, Op, Fields, Row, RowUpdate, insert, delete, update}
use govtep.Tai.Object.{ObjId}
use govtep.Tai.Registry.{TaiDriver, Active, active_tai_driver, active, inactive}
use govtep.Tai.Attrs.{AttrChanges, attr_changes}

-- `DriverHandler`. An object is never nil but where `taiRemoveObj` deletes attributes first.
pub record DriverHandler (W O V : Type 0) : Type 0 where
  pub tai_create_object : ObjId → O → Action W Error
  pub tai_remove_object : ObjId → O → Action W Error
  pub tai_add_object_attr : ObjId → O → Fields V → Action W Error
  pub tai_del_object_attr : ObjId → Option O → Fields V → Action W Error
  pub tai_set_object_attr : ObjId → O → Fields V → Action W Error
  pub tai_get_object_attr : ObjId → O → List String → Action W (Fields V × Error)
  pub tai_list_object : ObjId → Action W (List O × Error)

-- What a module of tai/ does to a row: `rowToXObj` and `rowToXAttrs`. They read the database.
pub record RowModule (W X O V : Type 0) : Type 0 where
  pub row_to_obj : Row X → Action W (Option O × Fields V)
  pub row_to_attrs : Row X → Action W (Fields V)

pub record RowModules (W X O V : Type 0) : Type 0 where
  pub bridge_module : RowModule W X O V
  pub vrf_module : RowModule W X O V
  pub l2_port_module : RowModule W X O V
  pub l3_port_module : RowModule W X O V
  pub route_module : RowModule W X O V
  pub tunnel_module : RowModule W X O V
  pub fdb_module : RowModule W X O V
  pub neighbour_module : RowModule W X O V
  pub acl_module : RowModule W X O V
  pub acl_rule_module : RowModule W X O V
  pub mcast_fdb_module : RowModule W X O V
  pub pbr_module : RowModule W X O V
  pub auto_gateway_conf_module : RowModule W X O V

module _ {W X O V : Type 0} (m : RowModules W X O V) where
  module_of : ObjId → RowModule W X O V
  module_of ObjId.bridge = m.bridge_module
  module_of ObjId.vrf = m.vrf_module
  module_of ObjId.l2_port = m.l2_port_module
  module_of ObjId.l3_port = m.l3_port_module
  module_of ObjId.route = m.route_module
  module_of ObjId.tunnel = m.tunnel_module
  module_of ObjId.fdb = m.fdb_module
  module_of ObjId.neighbour = m.neighbour_module
  module_of ObjId.acl = m.acl_module
  module_of ObjId.acl_rule = m.acl_rule_module
  module_of ObjId.mcast_fdb = m.mcast_fdb_module
  module_of ObjId.pbr = m.pbr_module
  module_of ObjId.auto_gateway_conf = m.auto_gateway_conf_module

  -- `rowToObj`
  unfoldable pub row_to_obj : ObjId → Row X → Action W (Option O × Fields V)
  unfolding module_of
  row_to_obj obj_id row = (module_of obj_id).row_to_obj row

  -- `rowToAttrs`
  unfoldable pub row_to_attrs : ObjId → Row X → Action W (Fields V)
  unfolding module_of
  row_to_attrs obj_id row = (module_of obj_id).row_to_attrs row

-- What the handling of rows takes from Go (conversions, `DeepEqual`) and from the rest of tai/.
pub record Env (W F R O V : Type 0) : Type 0 where
  pub truncate : F → ℤ
  pub of_int : ℤ → F
  pub same : F → F → Bool
  pub deep_equal : V → V → Bool
  pub modules : RowModules W (Value F R) O V

-- `taiCreateObject`, `taiRemoveObject`, `taiAddObjectAttr`, `taiDelObjectAttr`, `taiSetObjectAttr`:
-- ask for the active driver, and call it.
module _ {W O V : Type 0} (tai : TaiDriver (DriverHandler W O V)) where
  with_driver :
      Active (DriverHandler W O V) → (DriverHandler W O V → Action W Error) → Action W Error
  with_driver (inactive e) call w = (some e, w)
  with_driver (active handler) call w = call handler w

  unfoldable pub create_object : ObjId → O → Action W Error
  unfolding with_driver
  create_object id obj = with_driver (active_tai_driver tai) λ h. h.tai_create_object id obj

  unfoldable pub remove_object : ObjId → O → Action W Error
  unfolding with_driver
  remove_object id obj = with_driver (active_tai_driver tai) λ h. h.tai_remove_object id obj

  unfoldable pub add_object_attr : ObjId → O → Fields V → Action W Error
  unfolding with_driver
  add_object_attr id obj attrs =
      with_driver (active_tai_driver tai) λ h. h.tai_add_object_attr id obj attrs

  pub del_object_attr : ObjId → Option O → Fields V → Action W Error
  unfolding with_driver
  del_object_attr id obj attrs =
      with_driver (active_tai_driver tai) λ h. h.tai_del_object_attr id obj attrs

  unfoldable pub set_object_attr : ObjId → O → Fields V → Action W Error
  unfolding with_driver
  set_object_attr id obj attrs =
      with_driver (active_tai_driver tai) λ h. h.tai_set_object_attr id obj attrs

module _ {W F R O V : Type 0} (env : Env W F R O V) (tai : TaiDriver (DriverHandler W O V)) where
  -- `if len(attrs) != 0 { … }` after a creation that succeeded
  add_attrs : ObjId → O → Fields V → Error → W → W
  add_attrs id obj attrs (some e) w = w
  add_attrs id obj [] none w = w
  add_attrs id obj (a ∷ attrs) none w = (add_object_attr tai id obj (a ∷ attrs) w).1

  create_converted : ObjId → Option O × Fields V → W → W
  unfolding add_attrs create_object
  create_converted id (none, attrs) w = w
  create_converted id (some obj, attrs) w =
      let (err, w') = create_object tai id obj w in add_attrs id obj attrs err w'

  -- `taiCreateObj`
  pub tai_create_obj : ObjId → Row (Value F R) → W → W
  unfolding create_converted row_to_obj
  tai_create_obj id row w =
      let (converted, w') = row_to_obj env.modules id row w in create_converted id converted w'

  remove_converted : ObjId → Option O × Fields V → W → W
  unfolding del_object_attr remove_object
  remove_converted id (none, attrs) w = (del_object_attr tai id none attrs w).1
  remove_converted id (some obj, attrs) w =
      (remove_object tai id obj (del_object_attr tai id (some obj) attrs w).1).1

  -- `taiRemoveObj`
  pub tai_remove_obj : ObjId → Row (Value F R) → W → W
  unfolding remove_converted row_to_obj
  tai_remove_obj id row w =
      let (converted, w') = row_to_obj env.modules id row w in remove_converted id converted w'

  apply_changes : ObjId → O → AttrChanges V → W → W
  unfolding add_object_attr del_object_attr set_object_attr
  apply_changes id obj c w =
      let w1 = (add_object_attr tai id obj c.add w).1 in
      let w2 = (del_object_attr tai id (some obj) c.del w1).1 in
      (set_object_attr tai id obj c.set w2).1

  update_converted : ObjId → Option O × Fields V → Fields V → W → W
  unfolding apply_changes
  update_converted id (none, newattrs) oldattrs w = w
  update_converted id (some obj, newattrs) oldattrs w =
      apply_changes id obj (attr_changes env.deep_equal newattrs oldattrs) w

  -- `taiUpdateObj`
  pub tai_update_obj : ObjId → Row (Value F R) → Row (Value F R) → W → W
  unfolding update_converted row_to_obj row_to_attrs
  tai_update_obj id newrow oldrow w =
      let (new, w1) = row_to_obj env.modules id newrow w in
      let (oldattrs, w2) = row_to_attrs env.modules id oldrow w1 in
      update_converted id new oldattrs w2

  -- `switch op { … }`
  pub apply_op : Op → ObjId → RowUpdate (Value F R) → W → W
  unfolding tai_create_obj tai_remove_obj tai_update_obj
  apply_op insert id u w = tai_create_obj id u.new w
  apply_op delete id u w = tai_remove_obj id u.old w
  apply_op update id u w = tai_update_obj id u.new u.old w
  apply_op _ id u w = w
