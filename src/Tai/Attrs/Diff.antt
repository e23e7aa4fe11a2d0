-- ===== src/Tai/Attrs/Diff.antt =====
-- What `taiUpdateObj` finds to add, delete and set, key by key.
use govtep.Base.{
  String, ◌≡◌, refl, ◌≢◌, Bool, Option, none, some, [], ◌∷◌, arith, eq_iff, if◌then◌else◌, All,
}
use govtep.Ovsdb.Rows.{Fields, lookup}
use govtep.Ovsdb.Rows.Optimize.{lookup-assign}
use govtep.Tai.Attrs.{compare_attr, compare_attrs, collect_deleted, attr_changes}
use text.Mathlib.TextPositions.{eq_refl}

-- The keys of a Go map are distinct.
abbrev pub IsMap : {V : Type 0} → Fields V → Type 0
IsMap [] = Unit
IsMap ((k, v) ∷ m) = (lookup k m ≡ none) × IsMap m

module _ {V : Type 0} (deep_equal : V → V → Bool) where
  abbrev pub added : Option V → Option V → Option V
  added none o = none
  added (some v) none = some v
  added (some v) (some w) = none

  abbrev pub changed : Option V → Option V → Option V
  changed none o = none
  changed (some v) none = none
  changed (some v) (some w) = if deep_equal v w then none else some v

  compare_attrs_lem :
      (k : String) (new old : Fields V)
      → IsMap new
      → (lookup k (compare_attrs deep_equal new old).add ≡ added (lookup k new) (lookup k old))
        × (lookup k (compare_attrs deep_equal new old).set ≡ changed (lookup k new) (lookup k old))
  unfolding compare_attrs compare_attr lookup
  compare_attrs_lem k [] old d = (refl, refl)
  compare_attrs_lem k ((j, v) ∷ new) old d =
      let c = compare_attrs deep_equal new old in
      let ih = compare_attrs_lem k new old d.1 in
      ground (arith, ih.0, ih.1, lookup-assign j k v c.add, lookup-assign j k v c.set, eq_iff j k)

collect_deleted_nil :
    {V : Type 0} (old rest : Fields V)
    → All (λ e. lookup e.0 old ≢ none) rest
    → collect_deleted old rest ≡ []
unfolding collect_deleted
collect_deleted_nil old [] a = refl
collect_deleted_nil old ((k, v) ∷ rest) a = ground (arith, collect_deleted_nil old rest a.1)

All-weaken :
    {V : Type 0} (e : String × V) (old rest : Fields V)
    → All (λ x. lookup x.0 old ≢ none) rest
    → All (λ x. lookup x.0 (e ∷ old) ≢ none) rest
unfolding lookup
All-weaken e old [] a = tt
All-weaken (j, w) old ((k, v) ∷ rest) a = (λ h. ground arith, All-weaken (j, w) old rest a.1)

lookup-own : {V : Type 0} (old : Fields V) → All (λ x. lookup x.0 old ≢ none) old
unfolding lookup
lookup-own [] = tt
lookup-own ((k, v) ∷ rest) =
    (λ h. ground (arith, eq_refl k), All-weaken (k, v) rest rest (lookup-own rest))

pub attr_changes-del :
    {V : Type 0} (deep_equal : V → V → Bool) (new old : Fields V)
    → (attr_changes deep_equal new old).del ≡ []
unfolding attr_changes
attr_changes-del deep_equal new old = collect_deleted_nil old old (lookup-own old)

-- When no key is twice among the new attributes, the update adds the new value of each key that the
-- old row did not have, and sets the new value of each key whose old value is not deeply equal to it.
-- It deletes nothing, whatever the two rows are.
pub attr_changes_lem :
    {V : Type 0} (deep_equal : V → V → Bool) (new old : Fields V) (k : String)
    → IsMap new
    → (lookup k (attr_changes deep_equal new old).add
        ≡ added deep_equal (lookup k new) (lookup k old))
      × (lookup k (attr_changes deep_equal new old).set
          ≡ changed deep_equal (lookup k new) (lookup k old))
      × ((attr_changes deep_equal new old).del ≡ [])
unfolding attr_changes
attr_changes_lem deep_equal new old k d =
    let h = compare_attrs_lem deep_equal k new old d in
    (h.0, h.1, attr_changes-del deep_equal new old)
