-- ===== src/Ovsdb/Rows.antt =====
-- The row updates of lib/ovsdb_client/common.go.
-- A Go map is an association list with distinct keys, and a row's `Fields` is `none` for nil.
pub mod Optimize
use govtep.Base.{String, Bool, Option, none, some, List, [], ◌∷◌, if◌then◌else◌}
use govtep.Golang.Int.{ℤ}
use text.Mathlib.Text.{◌==◌ as text_eq}

-- An `interface{}` of a row. `F` stands for float64, `R` for the dynamic types that the code here
-- does not tell apart (strings, booleans, sets and maps).
pub data Value (F R : Type 0) : Type 0 where
  float : F → Value F R
  int : ℤ → Value F R
  uuid : String → Value F R
  other : R → Value F R

-- The operation set; `no_op` is the empty string.
pub data Op : Type 0 where
  insert mutate delete select_op update no_op : Op

abbrev pub Fields : Type 0 → Type 0
Fields V = List (String × V)

-- libovsdb.Row: `none` is a nil `Fields`.
abbrev pub Row : Type 0 → Type 0
Row V = Option (Fields V)

pub record RowUpdate (V : Type 0) : Type 0 where
  pub new : Row V
  pub old : Row V

module _ {V : Type 0} where
  -- `m[k]`
  unfoldable pub lookup : String → Fields V → Option V
  lookup k [] = none
  lookup k ((j, v) ∷ m) = if text_eq j k then some v else lookup k m

  -- `m[k] = v`
  unfoldable pub assign : String → V → Fields V → Fields V
  assign k v [] = (k, v) ∷ []
  assign k v ((j, w) ∷ m) = if text_eq j k then (j, v) ∷ m else (j, w) ∷ assign k v m

  -- `GetRowUpdateOp`: a row equals the empty one exactly if its map is nil.
  pub get_row_update_op : RowUpdate V → Op
  get_row_update_op u = elim u.new [
    | some _ ↦ elim u.old [ none ↦ insert | some _ ↦ update ]
    | none ↦ elim u.old [ none ↦ no_op | some _ ↦ delete ]
  ]

-- Go's conversions between float64 and int, and `==` on float64.
module _ {F R : Type 0} (truncate : F → ℤ) (of_int : ℤ → F) (same : F → F → Bool) where
  pub convert_value : Value F R → Value F R
  convert_value (float v) = let n = truncate v in if same (of_int n) v then int n else float v
  convert_value (int n) = int n
  convert_value (uuid u) = uuid u
  convert_value (other r) = other r

  convert_fields : Fields (Value F R) → Fields (Value F R)
  unfolding convert_value
  convert_fields [] = []
  convert_fields ((k, v) ∷ m) = (k, convert_value v) ∷ convert_fields m

  -- `Float64ToInt`, with the row it leaves.
  pub float64_to_int : Row (Value F R) → Row (Value F R)
  unfolding convert_fields
  float64_to_int none = none
  float64_to_int (some m) = some (convert_fields m)

  set_uuid : String → Row (Value F R) → Row (Value F R)
  unfolding assign
  set_uuid id none = none
  set_uuid id (some m) = some (assign "_uuid" (uuid id) m)

  -- `RowUpdateOptimize`
  pub row_update_optimize : RowUpdate (Value F R) → String → RowUpdate (Value F R)
  unfolding float64_to_int set_uuid
  row_update_optimize u id = record {
    new = set_uuid id (float64_to_int u.new);
    old = set_uuid id (float64_to_int u.old);
  }
