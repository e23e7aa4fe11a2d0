-- ===== src/Vtep/Ports/Generate/Neighbours.antt =====
-- The neighbours that `portGenRneighSet` asks for, once `remoteNeighCreate` has created them.
use govtep.Vtep.Ports.Databases.{Portdb}
use govtep.Base.{
  ◌≡◌, refl, sym, ap, ap₂, ◌∙◌, Bool, true, false, ◌&&◌, ◌||◌, Option, none, some, List, [], ◌∷◌,
  ◌++◌, map, arith, Str, str_eq, map-append, for_each,
}
use govtep.Vtep.Diff.{member}
use govtep.Vtep.Ports.Neighbour.{RemoteNeigh, create_neigh, remote_neigh_create}
use govtep.Vtep.Ports.Neighbour.Created.{
  place, has_l3port, else_at, else_at-other, NeighbourLaws, create_neigh-place, create_neigh-l3port,
}
use govtep.Vtep.Ports.Info.{PortInfo}
use govtep.Vtep.Ports.Generate.{
  neigh_at, neigh_before, neighs_for, append_neighs, port_gen_rneigh_set,
}

neighs_for-some :
    (port : PortInfo) (mac : Str) (macs ips : List Str)
    → port.mac ≡ mac ∷ macs
    → neighs_for port ips ≡ some (map (neigh_at port mac) ips)
unfolding neighs_for neigh_before
neighs_for-some port mac macs [] h = refl
neighs_for-some port mac macs (ip ∷ ips) h =
    ap₂ (λ m rest. neigh_before m port ip rest) h (neighs_for-some port mac macs ips h)

-- A port with a MAC asks for a neighbour at each of its IPv4 addresses, twice.
pub port_gen_rneigh_set_lem :
    (port : PortInfo) (mac : Str) (macs : List Str)
    → port.mac ≡ mac ∷ macs
    → port_gen_rneigh_set port ≡ some (map (neigh_at port mac) (port.ipv4addr ++ port.ipv4addr))
unfolding port_gen_rneigh_set append_neighs
port_gen_rneigh_set_lem port mac macs h =
    let one = neighs_for-some port mac macs port.ipv4addr h in
    ap₂ append_neighs one one
    ∙ ap some (sym (map-append (neigh_at port mac) port.ipv4addr port.ipv4addr))

member-twice : (k : Str) (xs ys : List Str) → member k (xs ++ ys) ≡ (member k xs || member k ys)
unfolding member
member-twice k [] ys = refl
member-twice k (x ∷ xs) ys = ground (arith, member-twice k xs ys)

or_self : (b : Bool) → (b || b) ≡ b
or_self true = refl
or_self false = refl

-- Two offers of the same place are one.
else_at-else_at :
    (o : Option (Str × Str)) (first rest meant : Bool) (q : Str × Str)
    → else_at (else_at o (first && meant) q) (rest && meant) q
      ≡ else_at o ((first || rest) && meant) q
unfolding else_at
else_at-else_at (some p) first rest meant q = refl
else_at-else_at none true rest true q = refl
else_at-else_at none true true false q = refl
else_at-else_at none true false false q = refl
else_at-else_at none false rest meant q = refl

module _ {W : Type 0} (db : Portdb W) (nh : W → W) (laws : NeighbourLaws db nh) where
  created_all :
      (port : PortInfo) (first ip mac : Str) (ips : List Str) (w : W)
      → has_l3port db w port.irb ≡ true
      → place db (for_each (map (neigh_at port first) ips) (create_neigh db nh) w) ip mac
        ≡ else_at (place db w ip mac) (member ip ips && str_eq first mac) (port.irb, port.locator)
  unfolding for_each member neigh_at
  created_all port first ip mac [] w there =
      else_at-other (place db w ip mac) (port.irb, port.locator)
  created_all port first ip mac (a ∷ ips) w there =
      let rn = neigh_at port first a in
      created_all port first ip mac ips (create_neigh db nh rn w)
        (create_neigh-l3port db nh laws rn port.irb w ∙ there)
      ∙ ap (λ o. else_at o (member ip ips && str_eq first mac) (port.irb, port.locator))
          (create_neigh-place db nh laws rn ip mac w there)
      ∙ else_at-else_at (place db w ip mac) (str_eq a ip) (member ip ips) (str_eq first mac)
          (port.irb, port.locator)

  -- Where a server takes the writes, the L3 port that a port with a MAC names is there, and
  -- `remoteNeighCreate` runs on what `portGenRneighSet` asks for: afterwards the L3 port has, at the
  -- port's locator, a neighbour for each IPv4 address of the port with the port's first MAC, unless
  -- the address and MAC were a neighbour's before, whose place stays; and no neighbour is added for
  -- another address, such as the IPv6 addresses, or another MAC.
  pub remote_neigh_create-port_gen_rneigh_set :
      (port : PortInfo) (first ip mac : Str) (macs : List Str) (w : W)
      → port.mac ≡ first ∷ macs
      → has_l3port db w port.irb ≡ true
      → (rns : List RemoteNeigh) × (port_gen_rneigh_set port ≡ some rns)
        × (place db (remote_neigh_create db nh rns w).1 ip mac
            ≡ else_at
                (place db w ip mac)
                (member ip port.ipv4addr && str_eq first mac)
                (port.irb, port.locator))
  unfolding remote_neigh_create
  remote_neigh_create-port_gen_rneigh_set port first ip mac macs w has there = (
    map (neigh_at port first) (port.ipv4addr ++ port.ipv4addr),
    port_gen_rneigh_set_lem port first macs has,
    created_all port first ip mac (port.ipv4addr ++ port.ipv4addr) w there
        ∙ ap (λ b. else_at (place db w ip mac) (b && str_eq first mac) (port.irb, port.locator))
            (member-twice ip port.ipv4addr port.ipv4addr ∙ or_self (member ip port.ipv4addr)),
  )
