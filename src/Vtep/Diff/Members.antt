-- ===== src/Vtep/Diff/Members.antt =====
-- What `diff_ops` says of each element.
use govtep.Base.{
  ◌≡◌, refl, Bool, true, false, Option, none, some, List, [], ◌∷◌, arith, if◌then◌else◌, Str,
  str_eq, text_laws,
}
use govtep.Vtep.Diff.{
  ListOp, member, find, put, old_ops, new_op, new_ops, diff_ops, insert_op, delete_op, keep_op,
}

abbrev pub Distinct : List Str → Type 0
Distinct [] = Unit
Distinct (x ∷ xs) = (member x xs ≡ false) × Distinct xs

module _ {V : Type 0} where
  pub find-put :
      (j k : Str) (v : V) (m : List (Str × V))
      → find k (put j v m) ≡ (if str_eq j k then some v else find k m)
  unfolding find put
  find-put j k v [] = refl
  find-put j k v ((i, u) ∷ m) = grind (text_laws, find-put j k v m)

find-old_ops :
    (k : Str) (old : List Str) (ops : List (Str × ListOp))
    → find k (old_ops old ops) ≡ (if member k old then some delete_op else find k ops)
unfolding old_ops member
find-old_ops k [] ops = refl
find-old_ops k (j ∷ old) ops =
    ground (arith, find-old_ops k old (put j delete_op ops), find-put j k delete_op ops)

find-new_ops :
    (k : Str) (new : List Str) (ops : List (Str × ListOp))
    → Distinct new
    → find k (new_ops new ops) ≡ (if member k new then some (new_op (find k ops)) else find k ops)
unfolding new_ops member
find-new_ops k [] ops d = refl
find-new_ops k (j ∷ new) ops d =
    let op = new_op (find j ops) in
    grind (text_laws, find-new_ops k new (put j op ops) d.1, find-put j k op ops, d.0)

-- What becomes of an element, by whether the old list and the new list have it.
abbrev pub expected_op : Bool → Bool → Option ListOp
expected_op false false = none
expected_op false true = some insert_op
expected_op true false = some delete_op
expected_op true true = some keep_op

-- The map keeps the elements of both lists, deletes those of the old one alone, inserts those of the
-- new one alone, and says nothing of others, when the new list has no element twice.
pub diff_ops_lem :
    (k : Str) (old new : List Str)
    → Distinct new
    → find k (diff_ops old new) ≡ expected_op (member k old) (member k new)
unfolding diff_ops find new_op
diff_ops_lem k old new d =
    ground (arith, find-new_ops k new (old_ops old []) d, find-old_ops k old [])
