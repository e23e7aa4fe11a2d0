-- ===== src/Tai/Rows/Neighbours.antt =====
-- What the driver hears of a neighbour whose MAC changes.
use govtep.Base.{
  ◌≡◌, refl, ap, ap₂, subst, ◌∙◌, Bool, false, Option, none, some, List, [], ◌∷◌, if◌then◌else◌,
  Str,
}
use govtep.Ovsdb.Rows.{lookup, assign}
use govtep.Tai.Attrs.{attr_changes}
use govtep.Tai.Attrs.Diff.{IsMap, added, changed, attr_changes_lem}
use govtep.Tai.Rows.{
  Dynamic, a_text, Attrs, if_text, read_row, neighbour_attr, NeighRow, remote_ip, neighbour_attrs,
  mac_column,
}

-- The attributes of the old values, when only the MAC changes.
unfoldable pub old_mac : Str → Attrs
unfolding read_row neighbour_attr
old_mac mac = read_row neighbour_attr ((mac_column, a_text mac) ∷ [])

-- The new MAC is to be set and not to be added.
MacIsSet : (Dynamic → Dynamic → Bool) → Str → Str → Attrs → Type 0
MacIsSet deep_equal mac old new =
    (lookup "neighbour_macaddr" (attr_changes deep_equal new (old_mac old)).add ≡ none)
    × (lookup "neighbour_macaddr" (attr_changes deep_equal new (old_mac old)).set
        ≡ some (a_text mac))

old_mac_there : (old : Str) → lookup "neighbour_macaddr" (old_mac old) ≡ some (a_text old)
unfolding old_mac neighbour_attr read_row if_text lookup assign
old_mac_there old = refl

macs_differ :
    (deep_equal : Dynamic → Dynamic → Bool) (mac old : Str) (new : Attrs)
    → IsMap new
    → lookup "neighbour_macaddr" new ≡ some (a_text mac)
    → deep_equal (a_text mac) (a_text old) ≡ false
    → MacIsSet deep_equal mac old new
unfolding MacIsSet
macs_differ deep_equal mac old new once e d =
    let changes = attr_changes_lem deep_equal new (old_mac old) "neighbour_macaddr" once in
    (
      changes.0 ∙ ap₂ (added deep_equal) e (old_mac_there old),
      changes.1
          ∙ ap₂ (changed deep_equal) e (old_mac_there old)
          ∙ ap (λ b. if b then none else some (a_text mac)) d,
    )

attrs_of : Option Attrs → Attrs
attrs_of none = []
attrs_of (some attrs) = attrs

-- With or without the address of a locator.
by_locator :
    (deep_equal : Dynamic → Dynamic → Bool) (mac port old : Str) (found : Option (List Str))
    (new : Attrs)
    → remote_ip "neighbour_remoteip"
        (("neighbour_macaddr", a_text mac) ∷ ("neighbour_outport", a_text port) ∷ [])
        found
      ≡ some new
    → deep_equal (a_text mac) (a_text old) ≡ false
    → MacIsSet deep_equal mac old new
unfolding remote_ip lookup attrs_of
by_locator deep_equal mac port old none new e d =
    subst (MacIsSet deep_equal mac old) (ap attrs_of e) (
      macs_differ deep_equal mac old
        (("neighbour_macaddr", a_text mac) ∷ ("neighbour_outport", a_text port) ∷ [])
        (refl, (refl, tt)) refl d)
by_locator deep_equal mac port old (some []) new e d = cc
by_locator deep_equal mac port old (some (ip ∷ _)) new e d =
    subst (MacIsSet deep_equal mac old) (ap attrs_of e) (
      macs_differ deep_equal mac old
        (("neighbour_remoteip", a_text ip)
          ∷ ("neighbour_macaddr", a_text mac)
          ∷ ("neighbour_outport", a_text port)
          ∷ [])
        (refl, (refl, (refl, tt))) refl d)

-- Of an update that changes the MAC of a neighbour and no other column, the new MAC is among the
-- attributes to set and not among those to add, when the new and the old MAC are not deeply equal and
-- the new row is converted without a panic.
pub neighbour_mac_is_set :
    (deep_equal : Dynamic → Dynamic → Bool) (locator_get_by_uuid : Str → Option (List Str))
    (row : NeighRow) (old : Str) (new : Attrs)
    → neighbour_attrs locator_get_by_uuid row ≡ some new
    → deep_equal (a_text row.mac) (a_text old) ≡ false
    → (lookup "neighbour_macaddr" (attr_changes deep_equal new (old_mac old)).add ≡ none)
      × (lookup "neighbour_macaddr" (attr_changes deep_equal new (old_mac old)).set
          ≡ some (a_text row.mac))
unfolding neighbour_attrs MacIsSet
neighbour_mac_is_set deep_equal get row old new e d =
    by_locator deep_equal row.mac row.out_l3port old (get row.remote_locator) new e d
