-- ===== src/Vtep/Ports/Neighbour/Created.antt =====
-- What the creation of remote neighbours adds to the database.
use govtep.Base.{
  ◌≡◌, refl, sym, ap, ap₂, ◌∙◌, inl, inr, Bool, true, false, ◌&&◌, Option, none, some, arith,
  if◌then◌else◌, Bool-cases, Str, str_eq, str_eq_iff,
}
use govtep.Vtep.Ports.Databases.{TableRoute, TableRemoteNeigh, TableL3port, Portdb}
use govtep.Vtep.Ports.Neighbour.{RemoteNeigh, table_neigh, add_neigh, neigh_unless, create_neigh}
use govtep.Vtep.Ports.Neighbour.Frame.{neigh_added-frame, create_neigh-frame}

-- The L3 port of a neighbour, and its locator.
unfoldable pub place_of : Option TableRemoteNeigh → Option (Str × Str)
place_of none = none
place_of (some row) = some (row.out_l3port, row.remote_locator)

-- Where the neighbour with an address and a MAC is.
unfoldable pub place : {W : Type 0} → Portdb W → W → Str → Str → Option (Str × Str)
unfolding place_of
place db w ip mac = place_of (db.remote_neigh_get_by_index w ip mac)

unfoldable pub is_there : Option TableL3port → Bool
is_there none = false
is_there (some _) = true

unfoldable pub has_l3port : {W : Type 0} → Portdb W → W → Str → Bool
unfolding is_there
has_l3port db w name = is_there (db.l3port_get_by_index1 w name)

-- What was there stays.
unfoldable pub else_at : Option (Str × Str) → Bool → Str × Str → Option (Str × Str)
else_at (some p) meant q = some p
else_at none meant q = if meant then some q else none

pub else_at-found :
    (o : Option (Str × Str)) (p : Str × Str) (meant : Bool) (q : Str × Str)
    → o ≡ some p
    → o ≡ else_at o meant q
unfolding else_at
else_at-found none p meant q e = cc
else_at-found (some p') p meant q e = refl

pub else_at-other : (o : Option (Str × Str)) (q : Str × Str) → o ≡ else_at o false q
unfolding else_at
else_at-other none q = refl
else_at-other (some p) q = refl

-- A server that takes the writes: a neighbour comes to an L3 port that is there, unless its address
-- and MAC, which are an index, are there already. Routes are no neighbours and no L3 ports.
pub record NeighbourLaws {W : Type 0} (db : Portdb W) (nh : W → W) : Type 0 where
  pub added :
      (port ip mac : Str) (row : TableRemoteNeigh) (w : W)
      → has_l3port db w port ≡ true
      → place db (db.l3port_update_add_neighbour port row w).1 ip mac
        ≡ else_at
            (place db w ip mac)
            (str_eq row.ipaddr ip && str_eq row.mac mac)
            (row.out_l3port, row.remote_locator)
  pub added_port :
      (port name : Str) (row : TableRemoteNeigh) (w : W)
      → has_l3port db (db.l3port_update_add_neighbour port row w).1 name ≡ has_l3port db w name
  pub route_neighbour :
      (ip mac vrf : Str) (row : TableRoute) (w : W)
      → place db (db.vrf_update_add_route vrf row w).1 ip mac ≡ place db w ip mac
  pub route_port :
      (name vrf : Str) (row : TableRoute) (w : W)
      → has_l3port db (db.vrf_update_add_route vrf row w).1 name ≡ has_l3port db w name
  pub nexthops_neighbour : (ip mac : Str) (w : W) → place db (nh w) ip mac ≡ place db w ip mac
  pub nexthops_port : (name : Str) (w : W) → has_l3port db (nh w) name ≡ has_l3port db w name

module _ {W : Type 0} (db : Portdb W) (nh : W → W) (laws : NeighbourLaws db nh) where
  -- Where the neighbour with an address and a MAC is after the creation of one.
  Created : RemoteNeigh → Str → Str → W → W → Type 0
  Created rn ip mac w created =
      place db created ip mac
      ≡ else_at (place db w ip mac) (str_eq rn.ipaddr ip && str_eq rn.mac mac)
          (rn.out_l3port, rn.remote_locator)

  else_at-there :
      (rn : RemoteNeigh) (row : TableRemoteNeigh) (ip mac : Str) (w : W)
      → db.remote_neigh_get_by_index w rn.ipaddr rn.mac ≡ some row
      → Created rn ip mac w w
  unfolding Created place place_of
  else_at-there rn row ip mac w e =
      let q : Str × Str = (rn.out_l3port, rn.remote_locator) in
      elim (Bool-cases (str_eq rn.ipaddr ip && str_eq rn.mac mac)) [
        | inl meant ↦
            let same_ip : rn.ipaddr ≡ ip = (str_eq_iff rn.ipaddr ip).0 (ground (arith, meant)) in
            let same_mac : rn.mac ≡ mac = (str_eq_iff rn.mac mac).0 (ground (arith, meant)) in
            else_at-found (place db w ip mac) (row.out_l3port, row.remote_locator)
              (str_eq rn.ipaddr ip && str_eq rn.mac mac) q
              (ap₂ (λ i m. place db w i m) (sym same_ip) (sym same_mac) ∙ ap place_of e)
        | inr other ↦
            else_at-other (place db w ip mac) q
            ∙ ap (λ b. else_at (place db w ip mac) b q) (sym other)
      ]

  add_neigh-Created :
      (o : Option TableL3port) (rn : RemoteNeigh) (ip mac : Str) (w : W)
      → db.l3port_get_by_index1 w rn.out_l3port ≡ o
      → is_there o ≡ true
      → Created rn ip mac w (add_neigh db nh o rn w)
  unfolding add_neigh Created is_there has_l3port table_neigh
  add_neigh-Created none rn ip mac w e there = cc
  add_neigh-Created (some port) rn ip mac w e there =
      neigh_added-frame db nh (λ t. place db t ip mac) (laws.route_neighbour ip mac)
        (laws.nexthops_neighbour ip mac) rn port _
      ∙ laws.added rn.out_l3port ip mac (table_neigh rn) w (ap is_there e)

  neigh_unless-Created :
      (o : Option TableRemoteNeigh) (rn : RemoteNeigh) (ip mac : Str) (w : W)
      → db.remote_neigh_get_by_index w rn.ipaddr rn.mac ≡ o
      → has_l3port db w rn.out_l3port ≡ true
      → Created rn ip mac w (neigh_unless db nh o rn w)
  unfolding neigh_unless has_l3port
  neigh_unless-Created (some row) rn ip mac w e there = else_at-there rn row ip mac w e
  neigh_unless-Created none rn ip mac w e there =
      add_neigh-Created (db.l3port_get_by_index1 w rn.out_l3port) rn ip mac w refl there

  pub create_neigh-place :
      (rn : RemoteNeigh) (ip mac : Str) (w : W)
      → has_l3port db w rn.out_l3port ≡ true
      → place db (create_neigh db nh rn w) ip mac
        ≡ else_at
            (place db w ip mac)
            (str_eq rn.ipaddr ip && str_eq rn.mac mac)
            (rn.out_l3port, rn.remote_locator)
  unfolding create_neigh Created
  create_neigh-place rn ip mac w there =
      neigh_unless-Created (db.remote_neigh_get_by_index w rn.ipaddr rn.mac) rn ip mac w refl there

  pub create_neigh-l3port :
      (rn : RemoteNeigh) (name : Str) (w : W)
      → has_l3port db (create_neigh db nh rn w) name ≡ has_l3port db w name
  create_neigh-l3port rn name w =
      create_neigh-frame db nh (λ t. has_l3port db t name) (laws.route_port name)
        (laws.nexthops_port name) (λ port row t. laws.added_port port name row t) rn w
