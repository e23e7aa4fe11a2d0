-- ===== src/Tai/Attrs.antt =====
-- Which attributes an update adds, deletes and sets: the two loops of `taiUpdateObj` in tai/tai.go.
-- `V` is the type of attribute values and `deep_equal` is `reflect.DeepEqual` on them. A loop over a
-- map visits its entries in some order: here the last of the list first.
pub mod Diff
use govtep.Base.{String, Bool, none, some, [], ◌∷◌, if◌then◌else◌}
use govtep.Ovsdb.Rows.{Fields, lookup, assign}
use text.Mathlib.Text.{◌==◌ as text_eq}

pub record AttrChanges (V : Type 0) : Type 0 where
  pub add : Fields V
  pub del : Fields V
  pub set : Fields V

module _ {V : Type 0} (deep_equal : V → V → Bool) where
  compare_attr : Fields V → String → V → AttrChanges V → AttrChanges V
  unfolding lookup assign
  compare_attr oldattrs k v1 c = elim (lookup k oldattrs) [
    | some v2 ↦ if deep_equal v1 v2 then c else record c { set = assign k v1 c.set }
    | none ↦ record c { add = assign k v1 c.add }
  ]

  -- `for k, v1 := range newattrs`
  compare_attrs : Fields V → Fields V → AttrChanges V
  unfolding compare_attr
  compare_attrs [] oldattrs = record { add = []; del = []; set = [] }
  compare_attrs ((k, v1) ∷ newattrs) oldattrs =
      compare_attr oldattrs k v1 (compare_attrs newattrs oldattrs)

-- `for k, v := range oldattrs`: the test looks the key up in `oldattrs` itself, as the source does.
collect_deleted : {V : Type 0} → Fields V → Fields V → Fields V
unfolding lookup assign
collect_deleted oldattrs [] = []
collect_deleted oldattrs ((k, v) ∷ rest) =
    let attrs_del = collect_deleted oldattrs rest in
    elim (lookup k oldattrs) [ some _ ↦ attrs_del | none ↦ assign k v attrs_del ]

pub attr_changes : {V : Type 0} → (V → V → Bool) → Fields V → Fields V → AttrChanges V
unfolding compare_attrs collect_deleted
attr_changes deep_equal newattrs oldattrs =
    let c = compare_attrs deep_equal newattrs oldattrs in
    record c { del = collect_deleted oldattrs oldattrs }
