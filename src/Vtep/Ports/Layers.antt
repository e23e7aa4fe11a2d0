-- ===== src/Vtep/Ports/Layers.antt =====
-- go_vtep/l2port.go and go_vtep/l3port.go: the ports of bridge domains and of VRFs.
pub mod Undo
use govtep.Base.{ℕ, Option, none, some, List, [], ◌∷◌, ◌==◌, if◌then◌else◌, Str, Error, errorf}
use govtep.Vtep.Ports.Databases.{TableRemoteNeigh, TableL2port, TableL3port, Portdb}
use govtep.Vtep.Ports.Neighbour.{RemoteNeigh, remote_neigh_remove}
use govtep.Vtep.Ports.Info.{PortInfo}

vlantags : ℕ → List ℕ
vlantags tag = if tag == 0 then [] else tag ∷ []

pub table_l2port : PortInfo → TableL2port
unfolding vlantags
table_l2port port = record {
  uuid = [];
  name = port.name;
  bd = port.bd;
  vlantag = vlantags port.vlan_tag;
  peerport = port.peer_port;
  peertype = port.peer_ltype;
  logical_port = port.logical_port;
  phyparent_port = port.phy_parent_port;
  type = port.type;
}

pub table_l3port : PortInfo → TableL3port
unfolding vlantags
table_l3port port = record {
  uuid = [];
  name = port.name;
  vrf = port.vrf;
  ipv4addr = port.ipv4addr;
  ipv6addr = port.ipv6addr;
  vlantag = vlantags port.vlan_tag;
  peerport = port.peer_port;
  peertype = port.peer_ltype;
  logical_port = port.logical_port;
  phyparent_port = port.phy_parent_port;
  type = port.type;
  neighbour = [];
}

neigh_of : TableRemoteNeigh → RemoteNeigh
neigh_of row = record {
  out_l3port = row.out_l3port;
  ipaddr = row.ipaddr;
  mac = row.mac;
  remote_locator = row.remote_locator;
}

module _ {W : Type 0} (db : Portdb W) where
  l2port_unless : Option TableL2port → PortInfo → W → Error × W
  unfolding table_l2port
  l2port_unless (some row) port w = (none, w)
  l2port_unless none port w = db.bridge_domain_update_add_l2ports port.bd (table_l2port port) w

  -- `l2PortCreate`
  pub l2port_create : PortInfo → W → Error × W
  unfolding l2port_unless
  l2port_create port w =
      if db.bridge_domain_exists w port.bd
      then l2port_unless (db.l2port_get_by_index1 w port.name) port w
      else (some (errorf "l2port Create failed, because bd not found"), w)

  del_l2port : Option TableL2port → PortInfo → W → Error × W
  del_l2port none port w = (some (errorf "l2port %s not exist"), w)
  del_l2port (some row) port w = db.bridge_domain_update_l2ports_delvalue port.bd (row.uuid ∷ []) w

  -- `l2PortRemove`
  pub l2port_remove : PortInfo → W → Error × W
  unfolding del_l2port
  l2port_remove port w =
      if db.bridge_domain_exists w port.bd
      then del_l2port (db.l2port_get_by_index1 w port.name) port w
      else (some (errorf "l2port delete failed, because bd not found"), w)

  l3port_unless : Option TableL3port → PortInfo → W → Error × W
  unfolding table_l3port
  l3port_unless (some row) port w = (none, w)
  l3port_unless none port w = db.vrf_update_add_l3ports port.vrf (table_l3port port) w

  l3port_in : Option Str → PortInfo → W → Error × W
  unfolding l3port_unless
  l3port_in none port w = (some (errorf "l3port Create fail, because vrf not found"), w)
  l3port_in (some vrf) port w = l3port_unless (db.l3port_get_by_index1 w port.name) port w

  -- `l3portCreate`
  pub l3port_create : PortInfo → W → Error × W
  unfolding l3port_in
  l3port_create port w = l3port_in (db.vrf_get_by_index w port.vrf) port w

  -- The neighbours of an L3 port that are found.
  neighs_of : List Str → W → List RemoteNeigh
  unfolding neigh_of
  neighs_of [] w = []
  neighs_of (uuid ∷ uuids) w = elim (db.remote_neigh_get_by_uuid w uuid) [
    | none ↦ neighs_of uuids w
    | some row ↦ neigh_of row ∷ neighs_of uuids w
  ]

  -- `l3portRemove`: the neighbours go first.
  pub l3port_remove : (W → W) → PortInfo → W → Error × W
  unfolding neighs_of
  l3port_remove pbr_nh_update port w = elim (db.l3port_get_by_index1 w port.name) [
    | none ↦ (some (errorf "l3port %s not exist"), w)
    | some row ↦
        db.vrf_update_l3ports_delvalue port.vrf (row.uuid ∷ [])
          (remote_neigh_remove db pbr_nh_update (neighs_of row.neighbour w) w).1
  ]
