-- ===== src/Vtep/Diff/Entries.antt =====
-- The comparison of a list with itself.
use govtep.Base.{
  ◌≡◌, refl, ap, ◌∙◌, inl, inr, none, some, List, [], ◌∷◌, arith, Bool-cases, Str, text_laws, All,
  for_each,
}
use govtep.Vtep.Diff.{ListOp, member, find, diff_ops, keep_op}
use govtep.Vtep.Diff.Members.{Distinct, diff_ops_lem}
use govtep.Vtep.Diff.Keys.{DistinctKeys, diff_ops-DistinctKeys}

All-later :
    {V : Type 0} (k : Str) (v : V) (m rest : List (Str × V))
    → find k rest ≡ none
    → All (λ e. find e.0 m ≡ some e.1) rest
    → All (λ e. find e.0 ((k, v) ∷ m) ≡ some e.1) rest
unfolding find
All-later k v m [] h a = tt
All-later k v m ((j, u) ∷ rest) h a =
    (grind (text_laws, a.0, h), All-later k v m rest (ground (arith, h)) a.1)

-- Every entry of a map is the one found under its key.
pub entries_found :
    {V : Type 0} (m : List (Str × V)) → DistinctKeys m → All (λ e. find e.0 m ≡ some e.1) m
unfolding find
entries_found [] d = tt
entries_found ((k, v) ∷ m) d = (grind text_laws, All-later k v m m d.0 (entries_found m d.1))

pub for_each_unchanged :
    {S A : Type 0} (P : A → Type 0) (xs : List A) (body : A → S → S) (s : S)
    → ((x : A) → P x → (t : S) → body x t ≡ t)
    → All P xs
    → for_each xs body s ≡ s
unfolding for_each
for_each_unchanged P [] body s same a = refl
for_each_unchanged P (x ∷ xs) body s same a =
    ap (for_each xs body) (same x a.0 s) ∙ for_each_unchanged P xs body s same a.1

keep_only :
    (k : Str) (op : ListOp) (xs : List Str)
    → Distinct xs
    → find k (diff_ops xs xs) ≡ some op
    → op ≡ keep_op
keep_only k op xs d h = elim (Bool-cases (member k xs)) [
  | inl there ↦ ground (arith, h, there, diff_ops_lem k xs xs d)
  | inr lacking ↦ absurd (ground (arith, h, lacking, diff_ops_lem k xs xs d))
]

-- A comparison of a list with itself does nothing when keeping an element does nothing.
pub diff_ops_same :
    {S : Type 0} (xs : List Str) (body : Str × ListOp → S → S) (s : S)
    → Distinct xs
    → ((k : Str) (t : S) → body (k, keep_op) t ≡ t)
    → for_each (diff_ops xs xs) body s ≡ s
diff_ops_same xs body s d same =
    for_each_unchanged (λ e. find e.0 (diff_ops xs xs) ≡ some e.1) (diff_ops xs xs) body s
      (λ e h t. ap (λ op. body (e.0, op) t) (keep_only e.0 e.1 xs d h) ∙ same e.0 t)
      (entries_found (diff_ops xs xs) (diff_ops-DistinctKeys xs xs))
