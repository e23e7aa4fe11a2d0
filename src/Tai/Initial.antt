-- ===== src/Tai/Initial.antt =====
-- `taiProcessInitial` and `taiNotifyUpdate` of tai/tai.go. A table update is a list of row updates
-- under their identifiers, in the order in which Go's loop over the map visits them.
pub mod Order
use govtep.Base.{
  ℕ, String, Bool, not, ◌&&◌, ◌||◌, Option, none, some, List, ◌==◌, if◌then◌else◌, for_each,
}
use govtep.Ovsdb.Rows.{Value, RowUpdate, get_row_update_op, float64_to_int, row_update_optimize}
use govtep.Tai.Object.{ObjId, obj_id_by_tbl_name}
use govtep.Tai.Registry.{TaiDriver}
use govtep.Tai.Handler.{DriverHandler, Env, apply_op}

abbrev pub TableUpdates : Type 0 → Type 0
TableUpdates X = List (String × List (String × RowUpdate X))

-- `ObjectIDBridge` and so on are numbered from 1.
object_id : ObjId → ℕ
object_id ObjId.bridge = 1
object_id ObjId.vrf = 2
object_id ObjId.l2_port = 3
object_id ObjId.l3_port = 4
object_id ObjId.fdb = 5
object_id ObjId.neighbour = 6
object_id ObjId.route = 7
object_id ObjId.tunnel = 8
object_id ObjId.mcast_fdb = 9
object_id ObjId.acl = 10
object_id ObjId.acl_rule = 11
object_id ObjId.pbr = 12
object_id ObjId.auto_gateway_conf = 13

is_id : ObjId → ObjId → Bool
unfolding object_id
is_id a b = object_id a == object_id b

-- Which tables the three loops pass over.
skip_first : ObjId → Bool
unfolding is_id
skip_first id = not (is_id id ObjId.tunnel)

skip_second : ObjId → Bool
unfolding is_id
skip_second id = (not (is_id id ObjId.bridge) && not (is_id id ObjId.vrf)) || is_id id ObjId.tunnel

skip_third : ObjId → Bool
unfolding is_id
skip_third id = is_id id ObjId.bridge || is_id id ObjId.vrf || is_id id ObjId.tunnel

module _ {W F R O V : Type 0} (env : Env W F R O V) (tai : TaiDriver (DriverHandler W O V)) where
  -- The body of the loop over a table's rows in `taiProcessInitial`.
  pub initial_row : ObjId → RowUpdate (Value F R) → W → W
  initial_row id u w =
      let u' : RowUpdate (Value F R) = record {
        new = float64_to_int env.truncate env.of_int env.same u.new;
        old = float64_to_int env.truncate env.of_int env.same u.old;
      } in
      apply_op env tai (get_row_update_op u') id u' w

  table_rows : Option ObjId → (ObjId → Bool) → List (String × RowUpdate (Value F R)) → W → W
  table_rows none skip rows w = w
  table_rows (some id) skip rows w =
      if skip id then w else for_each rows (λ r. initial_row id r.1) w

  -- `for table, tableupdate := range updates.Updates`, with the tables that it skips.
  pass : (ObjId → Bool) → TableUpdates (Value F R) → W → W
  unfolding table_rows for_each
  pass skip updates = for_each updates λ t. table_rows (obj_id_by_tbl_name t.0) skip t.1

  -- `taiProcessInitial`. Each loop visits the map in an order of its own.
  pub tai_process_initial :
      TableUpdates (Value F R) → TableUpdates (Value F R) → TableUpdates (Value F R) → W → W
  unfolding pass skip_first skip_second skip_third
  tai_process_initial first second third w =
      pass skip_third third (pass skip_second second (pass skip_first first w))

  notify_row : ObjId → String → RowUpdate (Value F R) → W → W
  notify_row id row_id u w =
      let u' = row_update_optimize env.truncate env.of_int env.same u row_id in
      apply_op env tai (get_row_update_op u') id u' w

  notify_table : Option ObjId → List (String × RowUpdate (Value F R)) → W → W
  unfolding notify_row for_each
  notify_table none rows w = w
  notify_table (some id) rows w = for_each rows (λ r. notify_row id r.0 r.1) w

  -- `taiNotifyUpdate`
  tai_notify_update : TableUpdates (Value F R) → W → W
  unfolding notify_table for_each
  tai_notify_update updates = for_each updates λ t. notify_table (obj_id_by_tbl_name t.0) t.1
