-- ===== src/Tai/Initial/Order.antt =====
-- The order in which the initial contents of the database reach the driver.
use govtep.Base.{
  ℕ, String, ◌≡◌, refl, sym, ap, ◌∙◌, ◌⊎◌, inl, inr, Bool, true, false, not, Option, none, some,
  List, [], ◌∷◌, ◌++◌, map, arith, ◌==◌, if◌then◌else◌, Bool-cases, select, for_each,
  for_each-append, for_each-map,
}
use govtep.Ovsdb.Rows.{Value, RowUpdate}
use govtep.Tai.Object.{ObjId, obj_id_by_tbl_name, bridge, vrf, tunnel}
use govtep.Tai.Registry.{TaiDriver}
use govtep.Tai.Handler.{DriverHandler, Env}
use govtep.Tai.Initial.{
  TableUpdates, skip_first, skip_second, skip_third, initial_row, table_rows, pass,
  tai_process_initial,
}
use mathlib.Core.List.{Perm, perm_middle}
use mathlib.Core.List.Perm

-- The rows of the tables that hold an object, in the order of the updates.
tag_rows : {X : Type 0} → Option ObjId → List (String × RowUpdate X) → List (ObjId × RowUpdate X)
tag_rows none rows = []
tag_rows (some id) rows = map (λ r. (id, r.1)) rows

pub known_rows : {X : Type 0} → TableUpdates X → List (ObjId × RowUpdate X)
known_rows [] = []
known_rows ((table, rows) ∷ ts) = tag_rows (obj_id_by_tbl_name table) rows ++ known_rows ts

-- The rank of an object among the three groups.
pub rank : ObjId → ℕ
rank tunnel = 0
rank bridge = 1
rank vrf = 1
rank _ = 2

abbrev pub of_rank : {X : Type 0} → ℕ → List (ObjId × RowUpdate X) → List (ObjId × RowUpdate X)
of_rank n = select λ r. rank r.0 == n

kept-first : (id : ObjId) → not (skip_first id) ≡ (rank id == 0)
unfolding skip_first rank
kept-first tunnel = refl
kept-first _ = refl

kept-second : (id : ObjId) → not (skip_second id) ≡ (rank id == 1)
unfolding skip_second rank
kept-second tunnel = refl
kept-second _ = refl

kept-third : (id : ObjId) → not (skip_third id) ≡ (rank id == 2)
unfolding skip_third rank
kept-third tunnel = refl
kept-third _ = refl

select-append :
    {A : Type 0} (p : A → Bool) (xs ys : List A) → select p (xs ++ ys) ≡ select p xs ++ select p ys
select-append p [] ys = refl
select-append p (x ∷ xs) ys = ground (arith, select-append p xs ys)

select-tag_rows :
    {X : Type 0} (p : ObjId → Bool) (id : ObjId) (rows : List (String × RowUpdate X))
    → select (λ r. p r.0) (tag_rows (some id) rows) ≡ (if p id then tag_rows (some id) rows else [])
unfolding tag_rows
select-tag_rows p id [] = ground arith
select-tag_rows p id (r ∷ rows) = ground (arith, select-tag_rows p id rows)

module _ {W F R O V : Type 0} (env : Env W F R O V) (tai : TaiDriver (DriverHandler W O V)) where
  table_rows-known :
      (skip p : ObjId → Bool) (same : (id : ObjId) → not (skip id) ≡ p id) (id : Option ObjId)
      (rows : List (String × RowUpdate (Value F R))) (w : W)
      → table_rows env tai id skip rows w
        ≡ for_each (select (λ r. p r.0) (tag_rows id rows)) (λ r. initial_row env tai r.0 r.1) w
  unfolding table_rows tag_rows for_each
  table_rows-known skip p same none rows w = refl
  table_rows-known skip p same (some id) rows w = elim (Bool-cases (skip id)) [
    | inl e ↦ let q : p id ≡ false = ground (arith, same id) in rw (e, select-tag_rows p id rows, q)
    | inr e ↦
        let q : p id ≡ true = ground (arith, same id) in
        rw (e, select-tag_rows p id rows, q)
          (sym (for_each-map (λ r. (id, r.1)) rows (λ r. initial_row env tai r.0 r.1) w))
  ]

  pass-known :
      (skip p : ObjId → Bool) (same : (id : ObjId) → not (skip id) ≡ p id)
      (updates : TableUpdates (Value F R)) (w : W)
      → pass env tai skip updates w
        ≡ for_each (select (λ r. p r.0) (known_rows updates)) (λ r. initial_row env tai r.0 r.1) w
  unfolding pass known_rows for_each
  pass-known skip p same [] w = refl
  pass-known skip p same ((table, rows) ∷ ts) w =
      let body : ObjId × RowUpdate (Value F R) → W → W = λ r. initial_row env tai r.0 r.1 in
      let here = tag_rows (obj_id_by_tbl_name table) rows in
      let kept : List (ObjId × RowUpdate (Value F R)) → List (ObjId × RowUpdate (Value F R)) =
        select (λ r. p r.0) in
      pass-known skip p same ts (table_rows env tai (obj_id_by_tbl_name table) skip rows w)
      ∙ ap (for_each (kept (known_rows ts)) body)
          (table_rows-known skip p same (obj_id_by_tbl_name table) rows w)
      ∙ sym (for_each-append (kept here) (kept (known_rows ts)) body w)
      ∙ ap (λ l. for_each l body w) (sym (select-append (λ r. p r.0) here (known_rows ts)))

  -- The initial contents are handled as one list of rows: those of the tunnel table as the first
  -- loop visits them, then those of bridges and VRFs as the second does, then all other rows that
  -- hold an object as the third does. Tables that hold no object are left out.
  pub tai_process_initial_order :
      (first second third : TableUpdates (Value F R)) (w : W)
      → tai_process_initial env tai first second third w
        ≡ for_each
            (of_rank 0 (known_rows first)
              ++ of_rank 1 (known_rows second)
              ++ of_rank 2 (known_rows third))
            (λ r. initial_row env tai r.0 r.1)
            w
  unfolding tai_process_initial
  tai_process_initial_order first second third w =
      let body : ObjId × RowUpdate (Value F R) → W → W = λ r. initial_row env tai r.0 r.1 in
      let w1 = pass env tai skip_first first w in
      let w2 = pass env tai skip_second second w1 in
      pass-known skip_third (λ id. rank id == 2) kept-third third w2
      ∙ ap (for_each (of_rank 2 (known_rows third)) body) (
          pass-known skip_second (λ id. rank id == 1) kept-second second w1
          ∙ ap (for_each (of_rank 1 (known_rows second)) body)
              (pass-known skip_first (λ id. rank id == 0) kept-first first w))
      ∙ ap (for_each (of_rank 2 (known_rows third)) body) (
          sym
            (for_each-append (of_rank 0 (known_rows first)) (of_rank 1 (known_rows second)) body w))
      ∙ sym (
          for_each-append (of_rank 0 (known_rows first) ++ of_rank 1 (known_rows second))
            (of_rank 2 (known_rows third)) body w)

rank_cases : (id : ObjId) → (rank id ≡ 0) ⊎ (rank id ≡ 1) ⊎ (rank id ≡ 2)
unfolding rank
rank_cases tunnel = inl refl
rank_cases bridge = inr (inl refl)
rank_cases vrf = inr (inl refl)
rank_cases _ = inr (inr refl)

ranks-perm :
    {X : Type 0} (rows : List (ObjId × RowUpdate X))
    → Perm ((of_rank 0 rows ++ of_rank 1 rows) ++ of_rank 2 rows) rows
ranks-perm [] = Perm.refl []
ranks-perm (r ∷ rows) = elim (rank_cases r.0) [
  | inl e ↦ rw e (Perm.cons r (ranks-perm rows))
  | inr (inl e) ↦ rw e (
      Perm.trans (Perm.append (perm_middle (of_rank 0 rows) (of_rank 1 rows)) Perm.rfl)
        (Perm.cons r (ranks-perm rows)))
  | inr (inr e) ↦ rw e (
      Perm.trans (perm_middle (of_rank 0 rows ++ of_rank 1 rows) (of_rank 2 rows))
        (Perm.cons r (ranks-perm rows)))
]

-- With one order for the three loops, every row of a table that holds an object is handled exactly
-- once, and no other row is.
pub tai_process_initial_once :
    {W F R O V : Type 0} (env : Env W F R O V) (tai : TaiDriver (DriverHandler W O V))
    (updates : TableUpdates (Value F R)) (w : W)
    → (handled : List (ObjId × RowUpdate (Value F R))) × (tai_process_initial env tai updates
          updates updates w
        ≡ for_each handled (λ r. initial_row env tai r.0 r.1) w)
      × Perm handled (known_rows updates)
tai_process_initial_once env tai updates w = (
  _,
  tai_process_initial_order env tai updates updates updates w,
  ranks-perm (known_rows updates),
)
