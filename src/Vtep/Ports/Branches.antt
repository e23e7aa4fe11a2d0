-- ===== src/Vtep/Ports/Branches.antt =====
-- The branches of `portbindingCreate`, `portbindingRemove` and `portbindingUpdatePortBranch` in
-- go_vtep/port.go: what each kind of port writes and takes back. Errors are only logged there, and
-- the chains of failed ports stay empty: `portAddToFailureChain` stores nothing. `none` is a panic.
pub mod Frame
use govtep.Base.{Option, none, some, Error, ◌>>=◌}
use govtep.Vtep.Ports.Databases.{Portdb, Bindingdb}
use govtep.Vtep.Ports.Route.{route_set_create, route_set_remove}
use govtep.Vtep.Ports.Neighbour.{remote_neigh_create, remote_neigh_remove}
use govtep.Vtep.Ports.Fdb.{remote_fdb_create, remote_fdb_remove}
use govtep.Vtep.Ports.Info.{
  PortInfo, ProcBranch, no_branch, lsp_ac_local, lsp_ac_remote, lsp_patch_lsp, lsp_patch_lrp,
  lsp_localnet, lrp_ac_local, lrp_ac_remote, lrp_patch_lsp, lrp_patch_lrp,
}
use govtep.Vtep.Ports.Layers.{l2port_create, l2port_remove, l3port_create, l3port_remove}
use govtep.Vtep.Ports.Generate.{port_gen_rfdb_set, port_gen_rneigh_set, port_gen_route_set}
use govtep.Vtep.Ports.Localnet.{clear_auto_gateway_conf_bd_value, auto_gateway_conf_table_update}

module _ {W : Type 0} (sb : Bindingdb W) (db : Portdb W) (pbr_nh_update : W → W) where
  -- A remote port of a switch, created or removed: its MACs, then its neighbours.
  create_remote : PortInfo → W → Option W
  create_remote port w = do
    neighs ← port_gen_rneigh_set port
    some
        (remote_neigh_create db pbr_nh_update neighs
          (remote_fdb_create db (port_gen_rfdb_set port) w).1).1

  remove_remote : PortInfo → W → Option W
  remove_remote port w = do
    neighs ← port_gen_rneigh_set port
    some
        (remote_neigh_remove db pbr_nh_update neighs
          (remote_fdb_remove db (port_gen_rfdb_set port) w).1).1

  -- The second `switch` of `portbindingUpdatePortBranch` and of `portbindingUpdateChassis`.
  unfoldable pub create_port : ProcBranch → PortInfo → W → Option W
  unfolding create_remote
  create_port no_branch port w = some w
  create_port lsp_ac_local port w = some (l2port_create db port w).1
  create_port lsp_ac_remote port w = create_remote port w
  create_port lsp_patch_lsp port w = some (l2port_create db port w).1
  create_port lsp_patch_lrp port w = some (l2port_create db port w).1
  create_port lsp_localnet port w = some w
  create_port lrp_ac_local port w = some (l3port_create db port w).1
  create_port lrp_ac_remote port w =
      some (route_set_create db pbr_nh_update (port_gen_route_set port) w).1
  create_port lrp_patch_lsp port w = some (l3port_create db port w).1
  create_port lrp_patch_lrp port w = some (l3port_create db port w).1

  -- The `switch` of `portbindingRemove`, and the first one of the other two.
  unfoldable pub remove_port : ProcBranch → PortInfo → W → Option W
  unfolding remove_remote
  remove_port no_branch port w = some w
  remove_port lsp_ac_local port w = some (l2port_remove db port w).1
  remove_port lsp_ac_remote port w = remove_remote port w
  remove_port lsp_patch_lsp port w = some (l2port_remove db port w).1
  remove_port lsp_patch_lrp port w = some (l2port_remove db port w).1
  remove_port lsp_localnet port w = some w
  remove_port lrp_ac_local port w = some (l3port_remove db pbr_nh_update port w).1
  remove_port lrp_ac_remote port w =
      some (route_set_remove db pbr_nh_update (port_gen_route_set port) w).1
  remove_port lrp_patch_lsp port w = some (l3port_remove db pbr_nh_update port w).1
  remove_port lrp_patch_lrp port w = some (l3port_remove db pbr_nh_update port w).1

  local_created : PortInfo → Error × W → Option W
  local_created port (some e, w) = some w
  local_created port (none, w) = auto_gateway_conf_table_update sb db port w

  -- The `switch` of `portbindingCreate`: a new local port and a new `localnet` port do more.
  unfoldable pub create_new_port : ProcBranch → PortInfo → W → Option W
  unfolding local_created create_port
  create_new_port lsp_ac_local port w = local_created port (l2port_create db port w)
  create_new_port lsp_localnet port w = some (clear_auto_gateway_conf_bd_value sb db port w).1
  create_new_port proc port w = create_port proc port w
