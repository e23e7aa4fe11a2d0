-- ===== src/Vtep/Locator/Rmac.antt =====
-- The map of router MACs with which a local locator starts.
use govtep.Base.{
  ◌≡◌, refl, ◌∙◌, not, ◌&&◌, Option, none, some, List, [], ◌∷◌, arith, if◌then◌else◌, Str,
}
use govtep.Vtep.Databases.{TableLocator}
use govtep.Vtep.Diff.{member, find, put}
use govtep.Vtep.Diff.Members.{find-put}
use govtep.Vtep.Locator.{map_ips, remote_rmacs}

-- The MAC of the last remote locator that has the address.
pub last_mac : Str → List TableLocator → Option Str
last_mac ip [] = none
last_mac ip (row ∷ rows) =
    let later = last_mac ip rows in
    elim later [
      | some mac ↦ some mac
      | none ↦ if not row.local_locator && member ip row.ipaddr then some row.route_mac else none
    ]

find-map_ips :
    (k : Str) (ips : List Str) (mac : Str) (m : List (Str × Str))
    → find k (map_ips ips mac m) ≡ (if member k ips then some mac else find k m)
unfolding map_ips member
find-map_ips k [] mac m = refl
find-map_ips k (ip ∷ ips) mac m =
    ground (arith, find-map_ips k ips mac (put ip mac m), find-put ip k mac m)

or_else : Option Str → Option Str → Option Str
or_else none o = o
or_else (some mac) o = some mac

find-remote_rmacs :
    (k : Str) (rows : List TableLocator) (m : List (Str × Str))
    → find k (remote_rmacs rows m) ≡ or_else (last_mac k rows) (find k m)
unfolding remote_rmacs last_mac or_else
find-remote_rmacs k [] m = refl
find-remote_rmacs k (row ∷ rows) m = ground (
  arith,
  find-remote_rmacs k rows m,
  find-remote_rmacs k rows (map_ips row.ipaddr row.route_mac m),
  find-map_ips k row.ipaddr row.route_mac m,
)

or_else-none : (o : Option Str) → or_else o none ≡ o
unfolding or_else
or_else-none none = refl
or_else-none (some mac) = refl

-- A local locator starts with a map that has, for each address, the MAC of the last remote locator
-- with that address among those that the database returns, and nothing for other addresses.
pub remote_rmacs_lem :
    (k : Str) (rows : List TableLocator) → find k (remote_rmacs rows []) ≡ last_mac k rows
unfolding find
remote_rmacs_lem k rows = find-remote_rmacs k rows [] ∙ or_else-none (last_mac k rows)
