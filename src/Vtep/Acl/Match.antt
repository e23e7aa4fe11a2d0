-- ===== src/Vtep/Acl/Match.antt =====
-- `strParseToACLField` of go_vtep/acl.go: the fields of an OVN match.
pub mod Syntax
use govtep.Base.{ℕ, true, false, ◌&&◌, Option, none, some, List, [], ◌∷◌, ◌==◌, if◌then◌else◌, Str}
use govtep.Golang.Text.{cons_first}
use govtep.Vtep.Diff.{find, put}

-- `strings.Replace(s, c, "", -1)` for a byte
without : ℕ → Str → Str
without c [] = []
without c (d ∷ s) = let rest = without c s in if d == c then rest else d ∷ rest

-- `strings.Split(s, sep)` for a separator of two bytes
split_pair : ℕ → ℕ → Str → List Str
unfolding cons_first
split_pair a b [] = [] ∷ []
split_pair a b (c ∷ []) = (c ∷ []) ∷ []
split_pair a b (c ∷ d ∷ s) = elim (c == a && d == b) [
  | true ↦ [] ∷ split_pair a b s
  | false ↦ cons_first c (split_pair a b (d ∷ s))
]

-- A part that is no pair has the empty value.
put_field : List Str → List (Str × Str) → List (Str × Str)
unfolding put
put_field [] fields = fields
put_field (k ∷ v ∷ []) fields = put k v fields
put_field (k ∷ _) fields = put k [] fields

put_fields : List Str → List (Str × Str) → List (Str × Str)
unfolding put_field split_pair
put_fields [] fields = fields
put_fields (part ∷ parts) fields = put_fields parts (put_field (split_pair b'=' b'=' part) fields)

-- `strParseToACLField`
unfoldable pub str_parse_to_acl_field : Str → List (Str × Str)
unfolding without split_pair put_fields
str_parse_to_acl_field s = put_fields (split_pair b'&' b'&' (without b'"' (without b' ' s))) []

or_empty : Option Str → Str
or_empty none = []
or_empty (some v) = v

-- `aclRuleField[key]`
unfoldable pub field_value : Str → List (Str × Str) → Str
unfolding find or_empty
field_value key fields = or_empty (find key fields)
