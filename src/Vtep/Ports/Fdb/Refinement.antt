-- ===== src/Vtep/Ports/Fdb/Refinement.antt =====
-- The MACs of a bridge domain after `remoteFdbUpdate`.
use govtep.Base.{
  ◌≡◌, refl, ap, subst, ◌∙◌, inl, inr, Bool, true, false, not, ◌&&◌, ◌||◌, Option, none, some, List,
  [], ◌∷◌, arith, if◌then◌else◌, Bool-cases, Option-cases, Str, str_eq, str_eq_iff, text_laws,
  for_each,
}
use govtep.Vtep.Diff.{ListOp, member, find, diff_ops, insert_op, delete_op, keep_op}
use govtep.Vtep.Diff.Keys.{DistinctKeys, diff_ops-DistinctKeys}
use govtep.Vtep.Ports.Databases.{TableRemoteFdb, Portdb}
use govtep.Vtep.Ports.Fdb.{table_fdb, found_uuid, apply_fdb_op, remote_fdb_update}
use govtep.Vtep.Diff.Members.{Distinct, diff_ops_lem}

abbrev is_some : Option Str → Bool
is_some none = false
is_some (some _) = true

after_op : Option ListOp → Bool → Bool
after_op none b = b
after_op (some insert_op) b = true
after_op (some delete_op) b = false
after_op (some keep_op) b = b

module _ {W : Type 0} (db : Portdb W) where
  -- Whether a bridge domain has a MAC.
  unfoldable pub has_mac : W → Str → Str → Bool
  has_mac w bd mac = is_some (db.remote_fdb_get_by_index w bd mac)

  -- What the two writes of a bridge domain's MACs promise: one adds the row's MAC, the other takes
  -- out the MAC of the row whose identifier is given, and no MAC when no row has it.
  pub record FdbLaws : Type 0 where
    pub has_mac-add :
        (bd : Str) (row : TableRemoteFdb) (k : Str) (w : W)
        → row.bridge ≡ bd
        → has_mac (db.bridge_domain_update_add_unicastfdb bd row w).1 bd k
          ≡ (str_eq row.mac k || has_mac w bd k)
    pub has_mac-delvalue :
        (bd mac uuid k : Str) (w : W)
        → db.remote_fdb_get_by_index w bd mac ≡ some uuid
        → has_mac (db.bridge_domain_update_unicastfdb_delvalue bd (uuid ∷ []) w).1 bd k
          ≡ (not (str_eq mac k) && has_mac w bd k)
    pub has_mac-no_row :
        (bd k : Str) (w : W)
        → has_mac (db.bridge_domain_update_unicastfdb_delvalue bd ([] ∷ []) w).1 bd k
          ≡ has_mac w bd k

  module _ (laws : FdbLaws) (bd locator k : Str) where
    lacking :
        (mac : Str) (w : W)
        → db.remote_fdb_get_by_index w bd mac ≡ none
        → has_mac w bd k ≡ (if str_eq mac k then false else has_mac w bd k)
    unfolding has_mac
    lacking mac w e = elim (Bool-cases (str_eq mac k)) [
      | inl q ↦ rw q (
          subst (λ i. is_some (db.remote_fdb_get_by_index w bd i) ≡ false) ((str_eq_iff mac k).0 q)
            (ap is_some e))
      | inr q ↦ rw q refl
    ]

    apply_fdb_op-has_mac :
        (mac : Str) (op : ListOp) (w : W)
        → has_mac (apply_fdb_op db bd locator (mac, op) w) bd k
          ≡ (if str_eq mac k then after_op (some op) (has_mac w bd k) else has_mac w bd k)
    unfolding apply_fdb_op table_fdb found_uuid after_op
    apply_fdb_op-has_mac mac insert_op w = ground (
      arith,
      laws.has_mac-add bd (table_fdb (record { bridge = bd; mac = mac; remote_locator = locator }))
          k w refl,
    )
    apply_fdb_op-has_mac mac delete_op w =
        elim (Option-cases (db.remote_fdb_get_by_index w bd mac)) [
          | inl e ↦ rw (e, apply_fdb_op) (laws.has_mac-no_row bd k w ∙ lacking mac w e)
          | inr (uuid, e) ↦
              rw (e, apply_fdb_op) (ground (arith, laws.has_mac-delvalue bd mac uuid k w e))
        ]
    apply_fdb_op-has_mac mac keep_op w = ground arith

    apply_ops-has_mac :
        (ops : List (Str × ListOp)) (w : W)
        → DistinctKeys ops
        → has_mac (for_each ops (apply_fdb_op db bd locator) w) bd k
          ≡ after_op (find k ops) (has_mac w bd k)
    unfolding for_each find after_op
    apply_ops-has_mac [] w d = refl
    apply_ops-has_mac ((mac, op) ∷ ops) w d =
        apply_ops-has_mac ops (apply_fdb_op db bd locator (mac, op) w) d.1
        ∙ grind (text_laws, apply_fdb_op-has_mac mac op w, d.0)

-- After an update from the MACs that a bridge domain has to new ones, none of them twice, it has
-- exactly the new ones, if the database carries out the writes.
pub remote_fdb_update_lem :
    {W : Type 0} (db : Portdb W) (bd locator k : Str) (old new : List Str) (w : W)
    → FdbLaws db
    → Distinct new
    → has_mac db w bd k ≡ member k old
    → has_mac db (remote_fdb_update db bd locator (diff_ops old new) w) bd k ≡ member k new
unfolding remote_fdb_update after_op
remote_fdb_update_lem db bd locator k old new w laws distinct h = ground (
  arith,
  h,
  apply_ops-has_mac db laws bd locator k (diff_ops old new) w (diff_ops-DistinctKeys old new),
  diff_ops_lem k old new distinct,
)
