-- ===== src/Vtep/Ports/Branches/Frame.antt =====
-- What the creation of a remote port of a switch leaves alone.
use govtep.Base.{◌≡◌, refl, ◌∙◌, some, List, ◌∷◌, ◌++◌, map, Str, ◌>>=◌}
use govtep.Vtep.Ports.Databases.{TableRoute, TableRemoteFdb, TableRemoteNeigh, Portdb, Bindingdb}
use govtep.Vtep.Ports.Fdb.{remote_fdb_create}
use govtep.Vtep.Ports.Fdb.Frame.{remote_fdb_create-frame}
use govtep.Vtep.Ports.Neighbour.{remote_neigh_create}
use govtep.Vtep.Ports.Neighbour.Frame.{remote_neigh_create-frame}
use govtep.Vtep.Ports.Info.{PortInfo, lsp_ac_remote}
use govtep.Vtep.Ports.Generate.{port_gen_rfdb_set, neigh_at}
use govtep.Vtep.Ports.Branches.{create_remote, create_port}
use govtep.Vtep.Ports.Generate.Neighbours.{port_gen_rneigh_set_lem}

-- The writes of MACs, neighbours, routes and nexthop groups change nothing that `obs` sees.
pub record RemoteFrame {W O : Type 0} (db : Portdb W) (nh : W → W) (obs : W → O) : Type 0 where
  pub fdb :
      (bd : Str) (row : TableRemoteFdb) (w : W)
      → obs (db.bridge_domain_update_add_unicastfdb bd row w).1 ≡ obs w
  pub neighbour :
      (port : Str) (row : TableRemoteNeigh) (w : W)
      → obs (db.l3port_update_add_neighbour port row w).1 ≡ obs w
  pub route :
      (vrf : Str) (row : TableRoute) (w : W) → obs (db.vrf_update_add_route vrf row w).1 ≡ obs w
  pub nexthops : (w : W) → obs (nh w) ≡ obs w

-- A remote port with a MAC is created without a panic, and `obs` sees no change.
pub create_remote-frame :
    {W O : Type 0} (sb : Bindingdb W) (db : Portdb W) (nh : W → W) (obs : W → O) (port : PortInfo)
    (mac : Str) (macs : List Str) (w : W)
    → RemoteFrame db nh obs
    → port.mac ≡ mac ∷ macs
    → (v : W) × (create_port sb db nh lsp_ac_remote port w ≡ some v) × (obs v ≡ obs w)
unfolding create_port create_remote ◌>>=◌
create_remote-frame sb db nh obs port mac macs w frame h =
    let neighs = map (neigh_at port mac) (port.ipv4addr ++ port.ipv4addr) in
    let fdbs = (remote_fdb_create db (port_gen_rfdb_set port) w).1 in
    (
      (remote_neigh_create db nh neighs fdbs).1,
      rw (port_gen_rneigh_set_lem port mac macs h) refl,
      remote_neigh_create-frame db nh obs frame.route frame.nexthops frame.neighbour neighs fdbs
          ∙ remote_fdb_create-frame db obs frame.fdb (port_gen_rfdb_set port) w,
    )
