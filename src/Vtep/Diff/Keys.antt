-- ===== src/Vtep/Diff/Keys.antt =====
-- The keys of the map from elements to operations.
use govtep.Base.{◌≡◌, refl, inl, inr, none, List, [], ◌∷◌, Bool-cases, Str, str_eq, text_laws}
use govtep.Vtep.Diff.{ListOp, find, put, old_ops, new_ops, diff_ops, delete_op}
use govtep.Vtep.Diff.Members.{find-put}

abbrev pub DistinctKeys : {V : Type 0} → List (Str × V) → Type 0
DistinctKeys [] = Unit
DistinctKeys ((k, v) ∷ m) = (find k m ≡ none) × DistinctKeys m

module _ {V : Type 0} where
  pub put-DistinctKeys :
      (k : Str) (v : V) (m : List (Str × V)) → DistinctKeys m → DistinctKeys (put k v m)
  unfolding put find
  put-DistinctKeys k v [] d = (refl, tt)
  put-DistinctKeys k v ((j, u) ∷ m) d = elim (Bool-cases (str_eq j k)) [
    | inl h ↦ rw h d
    | inr h ↦ rw h (grind (text_laws, find-put k j v m, d.0, h), put-DistinctKeys k v m d.1)
  ]

old_ops-DistinctKeys :
    (old : List Str) (ops : List (Str × ListOp)) → DistinctKeys ops → DistinctKeys (old_ops old ops)
unfolding old_ops
old_ops-DistinctKeys [] ops d = d
old_ops-DistinctKeys (k ∷ old) ops d =
    old_ops-DistinctKeys old _ (put-DistinctKeys k delete_op ops d)

new_ops-DistinctKeys :
    (new : List Str) (ops : List (Str × ListOp)) → DistinctKeys ops → DistinctKeys (new_ops new ops)
unfolding new_ops
new_ops-DistinctKeys [] ops d = d
new_ops-DistinctKeys (k ∷ new) ops d = new_ops-DistinctKeys new _ (put-DistinctKeys k _ ops d)

pub diff_ops-DistinctKeys : (old new : List Str) → DistinctKeys (diff_ops old new)
unfolding diff_ops
diff_ops-DistinctKeys old new =
    new_ops-DistinctKeys new (old_ops old []) (old_ops-DistinctKeys old [] tt)
