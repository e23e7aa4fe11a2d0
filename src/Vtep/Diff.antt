-- ===== src/Vtep/Diff.antt =====
-- The maps from elements to operations with which go_vtep compares the old and the new elements of a
-- column: `nhOp` of policy_based_route.go, `lbOp` of load_balancer.go and `natOp` of nat.go.
pub mod Members
pub mod Keys
pub mod Entries
use govtep.Base.{Bool, false, ◌||◌, Option, none, some, List, [], ◌∷◌, if◌then◌else◌, Str, str_eq}
use govtep.Vtep.Databases.{OldValue, one_uuid, uuid_set, other_old}

-- `odbc.OpInsert`, `odbc.OpDelete` and "keep"
pub data ListOp : Type 0 where
  insert_op delete_op keep_op : ListOp

-- `for … { if nhGroup[i] == nh { return true } }`
unfoldable pub member : Str → List Str → Bool
member k [] = false
member k (x ∷ xs) = str_eq x k || member k xs

module _ {V : Type 0} where
  -- `m[k]` and `m[k] = v` of a Go map
  unfoldable pub find : Str → List (Str × V) → Option V
  find k [] = none
  find k ((j, v) ∷ m) = if str_eq j k then some v else find k m

  unfoldable pub put : Str → V → List (Str × V) → List (Str × V)
  put k v [] = (k, v) ∷ []
  put k v ((j, u) ∷ m) = if str_eq j k then (j, v) ∷ m else (j, u) ∷ put k v m

pub old_ops : List Str → List (Str × ListOp) → List (Str × ListOp)
unfolding put
old_ops [] ops = ops
old_ops (k ∷ old) ops = old_ops old (put k delete_op ops)

-- The operation on an element that the new list has.
pub new_op : Option ListOp → ListOp
new_op none = insert_op
new_op (some _) = keep_op

pub new_ops : List Str → List (Str × ListOp) → List (Str × ListOp)
unfolding new_op find put
new_ops [] ops = ops
new_ops (k ∷ new) ops = new_ops new (put k (new_op (find k ops)) ops)

unfoldable pub diff_ops : List Str → List Str → List (Str × ListOp)
unfolding old_ops new_ops
diff_ops old new = new_ops new (old_ops old [])

set_uuids : List (Option Str) → List Str
set_uuids [] = []
set_uuids (none ∷ s) = set_uuids s
set_uuids (some u ∷ s) = u ∷ set_uuids s

-- `switch oldValue.(type) { … }`
unfoldable pub old_uuids : OldValue → List Str
unfolding set_uuids
old_uuids (one_uuid u) = u ∷ []
old_uuids (uuid_set s) = set_uuids s
old_uuids other_old = []
