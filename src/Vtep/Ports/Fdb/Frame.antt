-- ===== src/Vtep/Ports/Fdb/Frame.antt =====
-- What the creation of remote MACs does not change.
use govtep.Base.{◌≡◌, refl, ◌∙◌, Option, none, some, List, [], ◌∷◌, Str, Error}
use govtep.Vtep.Ports.Databases.{TableRemoteFdb, Portdb}
use govtep.Vtep.Ports.Fdb.{RemoteFdb, table_fdb, fdb_unless, fdbs_from, remote_fdb_create}

module _ {W O : Type 0} (db : Portdb W) (obs : W → O)
    (added : (bd : Str) (row : TableRemoteFdb) (w : W)
      → obs (db.bridge_domain_update_add_unicastfdb bd row w).1 ≡ obs w) where
  fdb_unless-frame :
      (o : Option Str) (fdb : RemoteFdb) (w : W) → obs (fdb_unless db o fdb w).1 ≡ obs w
  unfolding fdb_unless
  fdb_unless-frame (some uuid) fdb w = refl
  fdb_unless-frame none fdb w = added fdb.bridge (table_fdb fdb) w

  fdbs_from-frame : (fdbs : List RemoteFdb) (r : Error × W) → obs (fdbs_from db fdbs r).1 ≡ obs r.1
  unfolding fdbs_from
  fdbs_from-frame [] (some e, w) = refl
  fdbs_from-frame (fdb ∷ fdbs) (some e, w) = refl
  fdbs_from-frame [] (none, w) = refl
  fdbs_from-frame (fdb ∷ fdbs) (none, w) =
      fdbs_from-frame fdbs _
      ∙ fdb_unless-frame (db.remote_fdb_get_by_index w fdb.bridge fdb.mac) fdb w

  pub remote_fdb_create-frame :
      (fdbs : List RemoteFdb) (w : W) → obs (remote_fdb_create db fdbs w).1 ≡ obs w
  unfolding remote_fdb_create
  remote_fdb_create-frame fdbs w = fdbs_from-frame fdbs (none, w)
