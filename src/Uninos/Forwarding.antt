-- ===== src/Uninos/Forwarding.antt =====
-- driver/uninos/unos_fdb.go, unos_neighbour.go and unos_tunnel.go: MACs, neighbours and tunnels of
-- the switch's configuration database. Columns that have the schema's defaults are left out, and so
-- is logging. An attribute's value is `none` where it is not a string; where the code asserts that
-- it is one, that is a panic, the result `none`.
pub mod Neighbours
use govtep.Base.{
  Bool, Option, none, some, List, [], ◌∷◌, if◌then◌else◌, Str, Error, for_each, ◌>>=◌,
}

pub record FdbObj : Type 0 where
  pub mac : Str
  pub bridge : Str

pub record FdbRow : Type 0 where
  pub remote_ip : List Str
  pub tunnel_name : List Str

pub data FdbAttr : Type 0 where
  fdb_remote_ip fdb_tunnel_name : Option Str → FdbAttr
  fdb_attr : FdbAttr

-- A column of a row, with the value that is set.
pub data FdbField : Type 0 where
  field_remote_ip field_tunnel_name : List Str → FdbField

pub data NeighbourAttr : Type 0 where
  neighbour_macaddr neighbour_out_port neighbour_remote_ip : Option Str → NeighbourAttr
  neighbour_attr : NeighbourAttr

pub data NeighborField : Type 0 where
  field_mac field_outport field_bridge field_vxlanid field_remote : Str → NeighborField

-- `objTunnel`, and its attributes where they are not nil
pub record TunnelObj : Type 0 where
  pub name : Str
  pub ipaddr : Str

pub record TunnelAttrs : Type 0 where
  pub attr_ipaddr : Option (List Str)
  pub attr_rmac_map : Option (List (Str × Str))

-- Tables of lib/odbapi/unosconfig.
pub record Forwardingdb (W : Type 0) : Type 0 where
  pub fdb_exists : W → FdbObj → Bool
  pub fdb_add : FdbObj → W → Error × W
  pub fdb_del_by_index : FdbObj → W → Error × W
  pub fdb_set_field : FdbObj → FdbField → W → Error × W
  -- by the address
  pub neighbor_exists : W → Str → Bool
  pub neighbor_add : Str → W → Error × W
  pub neighbor_del_by_index : Str → W → Error × W
  pub neighbor_set_field : Str → NeighborField → W → Error × W
  pub bridge_exists : W → Str → Bool
  -- by the name; a new tunnel has its source address
  pub tunnel_exists : W → Str → Bool
  pub tunnel_add : TunnelObj → W → Error × W
  pub tunnel_del_by_index : Str → W → Error × W
  pub tunnel_set_src_ip : Str → List Str → W → Error × W
  pub tunnel_set_rmac_map : Str → List (Str × Str) → W → Error × W

-- `s[2:]`
unfoldable pub skip_two : Str → Option Str
skip_two (_ ∷ _ ∷ s) = some s
skip_two _ = none

module _ {W : Type 0} (db : Forwardingdb W) where
  -- `CreateObject` of `fdbAPI`
  unfoldable pub create_fdb : FdbObj → W → Error × W
  create_fdb obj w = if db.fdb_exists w obj then (none, w) else db.fdb_add obj w

  -- `RemoveObject` of `fdbAPI`
  unfoldable pub remove_fdb : FdbObj → W → Error × W
  remove_fdb obj w = db.fdb_del_by_index obj w

  set_fdb_attr : FdbObj → FdbAttr → W → W
  set_fdb_attr obj (fdb_remote_ip (some ip)) w =
      (db.fdb_set_field obj (field_remote_ip (ip ∷ [])) w).1
  set_fdb_attr obj (fdb_tunnel_name (some name)) w =
      (db.fdb_set_field obj (field_tunnel_name (name ∷ [])) w).1
  set_fdb_attr obj _ w = w

  -- `AddObjectAttr` of `fdbAPI`; its error is always nil
  unfoldable pub add_fdb_attr : FdbObj → List FdbAttr → W → W
  unfolding set_fdb_attr for_each
  add_fdb_attr obj attrs w = if db.fdb_exists w obj then for_each attrs (set_fdb_attr obj) w else w

  -- `CreateObject` of `neighbourAPI`
  unfoldable pub create_neighbour : Str → W → Error × W
  create_neighbour ip w = if db.neighbor_exists w ip then (none, w) else db.neighbor_add ip w

  -- `RemoveObject` of `neighbourAPI`
  unfoldable pub remove_neighbour : Str → W → Error × W
  remove_neighbour ip w = db.neighbor_del_by_index ip w

  set_vxlanid : Str → Option Str → W → Option W
  set_vxlanid ip none w = none
  set_vxlanid ip (some id) w = some (db.neighbor_set_field ip (field_vxlanid id) w).1

  set_bridge : Str → Str → W → Option W
  unfolding set_vxlanid skip_two
  set_bridge ip port w =
      if db.bridge_exists w port
      then set_vxlanid ip (skip_two port) (db.neighbor_set_field ip (field_bridge port) w).1
      else some w

  set_neighbour_attr : Str → NeighbourAttr → W → Option W
  unfolding set_bridge
  set_neighbour_attr ip (neighbour_macaddr (some mac)) w =
      some (db.neighbor_set_field ip (field_mac mac) w).1
  set_neighbour_attr ip (neighbour_out_port (some port)) w =
      set_bridge ip port (db.neighbor_set_field ip (field_outport port) w).1
  set_neighbour_attr ip (neighbour_remote_ip (some remote)) w =
      some (db.neighbor_set_field ip (field_remote remote) w).1
  set_neighbour_attr ip neighbour_attr w = some w
  set_neighbour_attr ip _ w = none

  unfoldable pub set_neighbour_attrs : Str → List NeighbourAttr → W → Option W
  unfolding set_neighbour_attr
  set_neighbour_attrs ip [] w = some w
  set_neighbour_attrs ip (attr ∷ attrs) w =
      set_neighbour_attr ip attr w >>= set_neighbour_attrs ip attrs

  -- `AddObjectAttr` of `neighbourAPI`; its error is always nil
  unfoldable pub add_neighbour_attr : Str → List NeighbourAttr → W → Option W
  unfolding set_neighbour_attrs
  add_neighbour_attr ip attrs w =
      if db.neighbor_exists w ip then set_neighbour_attrs ip attrs w else some w

  -- `CreateObject` of `tunnelAPI`
  unfoldable pub create_tunnel : TunnelObj → W → Error × W
  create_tunnel obj w = if db.tunnel_exists w obj.name then (none, w) else db.tunnel_add obj w

  -- `RemoveObject` of `tunnelAPI`
  unfoldable pub remove_tunnel : TunnelObj → W → Error × W
  remove_tunnel obj w = db.tunnel_del_by_index obj.name w

  set_src_ip : Str → Option (List Str) → W → W
  set_src_ip name none w = w
  set_src_ip name (some ips) w = (db.tunnel_set_src_ip name ips w).1

  set_rmac_map : Str → Option (List (Str × Str)) → W → W
  set_rmac_map name none w = w
  set_rmac_map name (some m) w = (db.tunnel_set_rmac_map name m w).1

  -- `AddObjectAttr` of `tunnelAPI`; its error is always nil
  unfoldable pub add_tunnel_attr : TunnelObj → TunnelAttrs → W → W
  unfolding set_src_ip set_rmac_map
  add_tunnel_attr obj attrs w =
      if db.tunnel_exists w obj.name
      then set_rmac_map obj.name attrs.attr_rmac_map (set_src_ip obj.name attrs.attr_ipaddr w)
      else w

  -- `SetObjectAttr` of `tunnelAPI`: the map of router MACs is not set
  unfoldable pub set_tunnel_attr : TunnelObj → TunnelAttrs → W → W
  unfolding set_src_ip
  set_tunnel_attr obj attrs w = set_src_ip obj.name attrs.attr_ipaddr w
