-- ===== src/Vtep/Ports/Fdb.antt =====
-- go_vtep/fdb.go: the remote MACs of a bridge domain. Logging is left out.
pub mod Refinement
pub mod Frame
use govtep.Base.{Option, none, some, List, [], ◌∷◌, Str, Error, for_each}
use govtep.Vtep.Diff.{ListOp, insert_op, delete_op, keep_op}
use govtep.Vtep.Ports.Databases.{TableRemoteFdb, Portdb}

pub record RemoteFdb : Type 0 where
  pub bridge : Str
  pub mac : Str
  pub remote_locator : Str

table_fdb : RemoteFdb → TableRemoteFdb
table_fdb fdb = record { bridge = fdb.bridge; mac = fdb.mac; remote_locator = fdb.remote_locator }

-- A MAC that is not found is removed under the empty identifier.
found_uuid : Option Str → Str
found_uuid none = []
found_uuid (some uuid) = uuid

module _ {W : Type 0} (db : Portdb W) where
  fdb_unless : Option Str → RemoteFdb → W → Error × W
  unfolding table_fdb
  fdb_unless (some uuid) fdb w = (none, w)
  fdb_unless none fdb w = db.bridge_domain_update_add_unicastfdb fdb.bridge (table_fdb fdb) w

  fdbs_from : List RemoteFdb → Error × W → Error × W
  unfolding fdb_unless
  fdbs_from fdbs (some e, w) = (some e, w)
  fdbs_from [] (none, w) = (none, w)
  fdbs_from (fdb ∷ fdbs) (none, w) =
      fdbs_from fdbs (fdb_unless (db.remote_fdb_get_by_index w fdb.bridge fdb.mac) fdb w)

  -- `remoteFdbCreate`: the first write that fails ends it.
  pub remote_fdb_create : List RemoteFdb → W → Error × W
  unfolding fdbs_from
  remote_fdb_create fdbs w = fdbs_from fdbs (none, w)

  remove_fdb : RemoteFdb → W → W
  remove_fdb fdb w = elim (db.remote_fdb_get_by_index w fdb.bridge fdb.mac) [
    | none ↦ w
    | some uuid ↦ (db.bridge_domain_update_unicastfdb_delvalue fdb.bridge (uuid ∷ []) w).1
  ]

  -- `remoteFdbRemove`
  pub remote_fdb_remove : List RemoteFdb → W → Error × W
  unfolding remove_fdb for_each
  remote_fdb_remove fdbs w = (none, for_each fdbs remove_fdb w)

  apply_fdb_op : Str → Str → Str × ListOp → W → W
  unfolding table_fdb found_uuid
  apply_fdb_op bd locator (mac, insert_op) w =
      let fdb : RemoteFdb = record { bridge = bd; mac = mac; remote_locator = locator } in
      (db.bridge_domain_update_add_unicastfdb bd (table_fdb fdb) w).1
  apply_fdb_op bd locator (mac, delete_op) w =
      (db.bridge_domain_update_unicastfdb_delvalue bd
        (found_uuid (db.remote_fdb_get_by_index w bd mac) ∷ []) w).1
  apply_fdb_op bd locator (mac, keep_op) w = w

  -- `remoteFdbUpdate`, for the bridge domain and the locator of the port
  pub remote_fdb_update : Str → Str → List (Str × ListOp) → W → W
  unfolding apply_fdb_op for_each
  remote_fdb_update bd locator ops w = for_each ops (apply_fdb_op bd locator) w
