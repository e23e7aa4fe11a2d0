-- ===== src/Examples/Rows.antt =====
-- A neighbour whose MAC changes.
use govtep.Base.{◌≡◌, refl, Bool, false, Option, none, some, List, [], ◌∷◌, Str, str, str_eq}
use govtep.Ovsdb.Rows.{lookup}
use govtep.Tai.Attrs.{attr_changes}
use govtep.Tai.Rows.{Dynamic, Attrs, NeighRow, neighbour_attrs, a_text}
use govtep.Tai.Rows.Neighbours.{old_mac, neighbour_mac_is_set}

same_text : Dynamic → Dynamic → Bool
same_text (a_text v) (a_text w) = str_eq v w
same_text v w = false

abbrev moved_mac : NeighRow
moved_mac = record {
  ipaddr = str "10.0.0.2";
  mac = str "00:00:00:00:00:02";
  out_l3port = str "Bd7";
  remote_locator = str "l1";
}

abbrev locators : Str → Option (List Str)
locators id = some (str "1.1.1.1" ∷ [])

abbrev moved_attrs : Attrs
moved_attrs =
    ("neighbour_remoteip", a_text (str "1.1.1.1"))
    ∷ ("neighbour_macaddr", a_text (str "00:00:00:00:00:02"))
    ∷ ("neighbour_outport", a_text (str "Bd7"))
    ∷ []

moved_row : neighbour_attrs locators moved_mac ≡ some moved_attrs
unfolding neighbour_attrs
moved_row = refl

macs_not_same : same_text (a_text moved_mac.mac) (a_text (str "00:00:00:00:00:01")) ≡ false
unfolding same_text str_eq
macs_not_same = refl

neighbour_mac_is_set_example :
    (lookup "neighbour_macaddr"
        (attr_changes same_text moved_attrs (old_mac (str "00:00:00:00:00:01"))).add
      ≡ none)
    × (lookup "neighbour_macaddr"
          (attr_changes same_text moved_attrs (old_mac (str "00:00:00:00:00:01"))).set
        ≡ some (a_text (str "00:00:00:00:00:02")))
neighbour_mac_is_set_example =
    neighbour_mac_is_set same_text locators moved_mac (str "00:00:00:00:00:01") moved_attrs
      moved_row macs_not_same
