-- ===== src/Uninos/Gateway.antt =====
-- driver/uninos/unos_auto_gateway_conf.go: the sub-port of a physical port, and its interface, by
-- which a VRF reaches the outside. Columns that have the schema's defaults are left out, and so is
-- logging. A name without the dot that the code cuts it at is a panic, the result `none`.
pub mod SubPorts
use govtep.Base.{
  ℕ, Bool, ◌&&◌, Option, none, some, List, [], ◌∷◌, ◌++◌, ◌==◌, if◌then◌else◌, Str, str, GoError,
  Error, ◌>>=◌,
}
use govtep.Golang.Decimal.{itoa}
use govtep.Golang.Text.{contains}

-- `tai.AutoGatewayConfObj`
pub record GatewayObj : Type 0 where
  pub vrf : Str
  pub physical_port : Str
  pub vlan : ℕ
  pub ip : Str
  pub bdname : Str

-- The interface of a sub-port, with the identifiers of its VRFs.
pub record SubPortInterface : Type 0 where
  pub name : Str
  pub ip : List Str
  pub vrf : List Str

-- Tables of lib/odbapi/unosconfig; interfaces are those of the type of sub-ports.
pub record Gatewaydb (W : Type 0) : Type 0 where
  -- the rows' identifiers
  pub sub_port_get_by_index : W → Str → Option Str
  pub vrf_get_by_index : W → Str → Option Str
  -- port, name and VLAN of a new sub-port
  pub port_update_add_subport : Str → Str → Str → W → Error × W
  pub port_update_subport_delvalue : Str → Str → W → Error × W
  pub interface_get_by_index : W → Str → Option SubPortInterface
  -- `InterfaceGet` under a condition on the VRF: the rows' names
  pub interface_get : W → Str → List Str
  pub interface_add : SubPortInterface → W → Error × W
  pub interface_del_by_index : Str → W → Error × W
  pub interface_update_ip_addvalue : Str → Str → W → Error × W
  pub interface_update_vrf_addvalue : Str → Str → W → Error × W
  -- what `VrfGetByIndex` returns for a VRF that is not there
  pub no_vrf : GoError

-- `table.PhysicalPort + "." + strconv.Itoa(table.Vlan)`
unfoldable pub sub_port_of : GatewayObj → Str
unfolding itoa
sub_port_of obj = obj.physical_port ++ (str "." ++ itoa obj.vlan)

-- `name[:strings.Index(name, ".")]`
unfoldable pub port_of : Str → Option Str
port_of [] = none
port_of (c ∷ s) =
    let rest = port_of s in if c == b'.' then some [] else (rest >>= (λ p. some (c ∷ p)))

unfoldable pub is_configured : GatewayObj → Bool
unfolding contains
is_configured obj = contains obj.bdname (str "Bd") && contains obj.physical_port (str "ep")

-- `update_gateway` is `pbrUpdateGateway` of unos_pbr.go.
module _ {W : Type 0} (db : Gatewaydb W) (update_gateway : Str → Str → ℕ → W → W) where
  -- A step that follows unless there is an error.
  and_then : Error × W → (W → Error × W) → Error × W
  and_then (some e, w) next = (some e, w)
  and_then (none, w) next = next w

  ensure_sub_port : GatewayObj → Option Str → W → Error × W
  unfolding itoa sub_port_of
  ensure_sub_port obj (some _) w = (none, w)
  ensure_sub_port obj none w =
      db.port_update_add_subport obj.physical_port (sub_port_of obj) (itoa obj.vlan) w

  bind_interface : List Str → Str → Str → W → Error × W
  bind_interface [] name vrf w = db.interface_update_vrf_addvalue name vrf w
  bind_interface (_ ∷ _) name vrf w = (none, w)

  ensure_interface : GatewayObj → Str → Option SubPortInterface → W → Error × W
  unfolding and_then bind_interface sub_port_of
  ensure_interface obj vrf none w =
      db.interface_add (record { name = sub_port_of obj; ip = obj.ip ∷ []; vrf = vrf ∷ [] }) w
  ensure_interface obj vrf (some row) w =
      and_then (db.interface_update_ip_addvalue (sub_port_of obj) obj.ip w)
        (bind_interface row.vrf (sub_port_of obj) vrf)

  with_vrf : GatewayObj → Option Str → W → Error × W
  unfolding ensure_interface sub_port_of
  with_vrf obj none w = (some db.no_vrf, w)
  with_vrf obj (some vrf) w =
      ensure_interface obj vrf (db.interface_get_by_index w (sub_port_of obj)) w

  -- `addAutoGatewayconfRelevantTable`
  unfoldable pub add_relevant_table : GatewayObj → W → Error × W
  unfolding and_then ensure_sub_port with_vrf sub_port_of
  add_relevant_table obj w =
      and_then (ensure_sub_port obj (db.sub_port_get_by_index w (sub_port_of obj)) w)
        (λ w. with_vrf obj (db.vrf_get_by_index w obj.vrf) w)

  del_interface : Str → Option SubPortInterface → W → Error × W
  del_interface name none w = (none, w)
  del_interface name (some _) w = db.interface_del_by_index name w

  del_at_port : Option Str → Str → W → Option (Error × W)
  del_at_port none uuid w = none
  del_at_port (some port) uuid w = some (db.port_update_subport_delvalue port uuid w)

  del_sub_port : Str → Option Str → W → Option (Error × W)
  unfolding del_at_port port_of
  del_sub_port name none w = some (none, w)
  del_sub_port name (some uuid) w = del_at_port (port_of name) uuid w

  after_interface : Str → Error × W → Option (Error × W)
  unfolding del_sub_port
  after_interface name (some e, w) = some (some e, w)
  after_interface name (none, w) = del_sub_port name (db.sub_port_get_by_index w name) w

  del_first : List Str → W → Option (Error × W)
  unfolding after_interface del_interface
  del_first [] w = some (none, w)
  del_first (name ∷ _) w =
      after_interface name (del_interface name (db.interface_get_by_index w name) w)

  del_of_vrf : Option Str → W → Option (Error × W)
  unfolding del_first
  del_of_vrf none w = some (none, w)
  del_of_vrf (some vrf) w = del_first (db.interface_get w vrf) w

  -- `delAutoGatewayconfRelevantTableByVrf`
  unfoldable pub del_relevant_table_by_vrf : Str → W → Option (Error × W)
  unfolding del_of_vrf
  del_relevant_table_by_vrf vrf w = del_of_vrf (db.vrf_get_by_index w vrf) w

  gateway_updated : GatewayObj → Error × W → Error × W
  gateway_updated obj (some e, w) = (some e, w)
  gateway_updated obj (none, w) = (none, update_gateway obj.vrf obj.physical_port obj.vlan w)

  -- `CreateObject` of `autoGatewayConfAPI`, and `AddObjectAttr`, which does the same
  unfoldable pub create_gateway : GatewayObj → W → Option (Error × W)
  unfolding is_configured del_relevant_table_by_vrf and_then add_relevant_table gateway_updated
  create_gateway obj w =
      if is_configured obj
      then (del_relevant_table_by_vrf obj.vrf w
          >>= (λ r. some (gateway_updated obj (and_then r (add_relevant_table obj)))))
      else some (gateway_updated obj (none, w))

  -- `RemoveObject` of `autoGatewayConfAPI`
  unfoldable pub remove_gateway : GatewayObj → W → Option (Error × W)
  unfolding del_relevant_table_by_vrf
  remove_gateway obj w = del_relevant_table_by_vrf obj.vrf w

  -- `DelObjectAttr` of `autoGatewayConfAPI`
  unfoldable pub del_gateway_attr : GatewayObj → W → Option (Error × W)
  unfolding is_configured del_relevant_table_by_vrf
  del_gateway_attr obj w =
      if is_configured obj then some (none, w) else del_relevant_table_by_vrf obj.vrf w

  add_if_configured : GatewayObj → W → Error × W
  unfolding is_configured add_relevant_table
  add_if_configured obj w = if is_configured obj then add_relevant_table obj w else (none, w)

  -- `SetObjectAttr` of `autoGatewayConfAPI`
  unfoldable pub set_gateway_attr : GatewayObj → W → Option (Error × W)
  unfolding del_relevant_table_by_vrf gateway_updated and_then add_if_configured
  set_gateway_attr obj w =
      del_relevant_table_by_vrf obj.vrf w
      >>= (λ r. some (gateway_updated obj (and_then r (add_if_configured obj))))
