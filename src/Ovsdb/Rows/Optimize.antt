-- ===== src/Ovsdb/Rows/Optimize.antt =====
-- The row that `RowUpdateOptimize` leaves.
use govtep.Base.{
  String, ◌≡◌, refl, ap, ap₂, Bool, none, some, [], ◌∷◌, arith, eq_iff, if◌then◌else◌,
}
use govtep.Golang.Int.{ℤ}
use govtep.Ovsdb.Rows.{
  Value, float, int, uuid, other, Fields, Row, RowUpdate, lookup, assign, get_row_update_op,
  convert_value, convert_fields, float64_to_int, set_uuid, row_update_optimize,
}
use mathlib.Core.Option
use text.Mathlib.Text.{◌==◌ as text_eq}
use text.Mathlib.TextPositions.{eq_refl}

module _ {V : Type 0} where
  pub lookup-assign :
      (k j : String) (v : V) (m : Fields V)
      → lookup j (assign k v m) ≡ (if text_eq k j then some v else lookup j m)
  unfolding lookup assign
  lookup-assign k j v [] = refl
  lookup-assign k j v ((i, w) ∷ m) =
      ground (arith, eq_iff k j, eq_iff i k, eq_iff i j, lookup-assign k j v m)

  assign-assign : (k : String) (v w : V) (m : Fields V) → assign k w (assign k v m) ≡ assign k w m
  unfolding assign
  assign-assign k v w [] = ground (arith, eq_refl k)
  assign-assign k v w ((j, x) ∷ m) = ground (arith, assign-assign k v w m)

module _ {F R : Type 0} (truncate : F → ℤ) (of_int : ℤ → F) (same : F → F → Bool) where
  convert_value_idem :
      (v : Value F R)
      → convert_value truncate of_int same (convert_value truncate of_int same v)
        ≡ convert_value truncate of_int same v
  unfolding convert_value
  convert_value_idem (float v) = ground arith
  convert_value_idem (int n) = refl
  convert_value_idem (uuid u) = refl
  convert_value_idem (other r) = refl

  -- A second conversion after the identifier is stored changes nothing but the identifier.
  assign-convert_fields :
      (k : String) (u w : String) (m : Fields (Value F R))
      → assign k (uuid u) (
          convert_fields truncate of_int same
            (assign k (uuid w) (convert_fields truncate of_int same m)))
        ≡ assign k (uuid u) (convert_fields truncate of_int same m)
  unfolding assign convert_fields convert_value
  assign-convert_fields k u w [] = ground (arith, eq_refl k)
  assign-convert_fields k u w ((j, v) ∷ m) =
      ground (arith, convert_value_idem v, assign-convert_fields k u w m, convert_fields_idem m)
    where
      convert_fields_idem :
          (m : Fields (Value F R))
          → convert_fields truncate of_int same (convert_fields truncate of_int same m)
            ≡ convert_fields truncate of_int same m
      convert_fields_idem [] = refl
      convert_fields_idem ((j, v) ∷ m) =
          ap₂ (λ x r. (j, x) ∷ r) (convert_value_idem v) (convert_fields_idem m)

  optimize_row_twice :
      (u : String) (r : Row (Value F R))
      → set_uuid truncate of_int same u (
          float64_to_int truncate of_int same
            (set_uuid truncate of_int same u (float64_to_int truncate of_int same r)))
        ≡ set_uuid truncate of_int same u (float64_to_int truncate of_int same r)
  unfolding set_uuid float64_to_int
  optimize_row_twice u none = refl
  optimize_row_twice u (some m) = ap some (assign-convert_fields "_uuid" u u m)

  -- Optimising an update keeps its operation, and optimising it again changes nothing, whatever the
  -- conversions between float64 and int do.
  pub row_update_optimize_stable :
      (u : RowUpdate (Value F R)) (id : String)
      → (get_row_update_op (row_update_optimize truncate of_int same u id) ≡ get_row_update_op u)
        × (row_update_optimize truncate of_int same
              (row_update_optimize truncate of_int same u id)
              id
            ≡ row_update_optimize truncate of_int same u id)
  unfolding row_update_optimize get_row_update_op set_uuid float64_to_int
  row_update_optimize_stable u id = (
    ground arith,
    λ i. record { new = optimize_row_twice id u.new i; old = optimize_row_twice id u.old i },
  )

  lookup-convert_fields :
      (k : String) (m : Fields (Value F R))
      → lookup k (convert_fields truncate of_int same m)
        ≡ Option.map (convert_value truncate of_int same) (lookup k m)
  unfolding lookup convert_fields
  lookup-convert_fields k [] = refl
  lookup-convert_fields k ((j, v) ∷ m) = ground (arith, lookup-convert_fields k m)

  -- An optimised new row holds the identifier under `_uuid`, and under any other key the converted
  -- value of that key, or nothing if the row had nothing there.
  pub lookup-row_update_optimize :
      (u : RowUpdate (Value F R)) (id k : String) (m : Fields (Value F R))
      → u.new ≡ some m
      → (m' : Fields (Value F R)) × ((row_update_optimize truncate of_int same u id).new ≡ some m')
        × (lookup k m' ≡ (
            if text_eq "_uuid" k
            then some (uuid id)
            else Option.map (convert_value truncate of_int same) (lookup k m)))
  unfolding row_update_optimize
  lookup-row_update_optimize u id k m e = (
    assign "_uuid" (uuid id) (convert_fields truncate of_int same m),
    rw e,
    simp (lookup-assign, lookup-convert_fields),
  )
