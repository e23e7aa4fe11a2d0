-- ===== src/Vtep/ProcessAll.antt =====
-- `vnetProcessAll` of go_vtep/vnet.go: all datapaths, port bindings and logical routers again. Rows
-- come converted, the port bindings with their identifiers; a row whose identifier is not one does
-- not occur.
use govtep.Vtep.Ports.Databases.{Portdb, TablePortBinding, Bindingdb}
use govtep.Base.{Option, some, List, [], ◌∷◌, Str, for_each, ◌>>=◌}
use govtep.Vtep.Databases.{Vtepdb, TableLogicalRouter, Ovnnb}
use govtep.Vtep.Vnet.{TableDatapathBinding, Vnetdb, vnet_create}
use govtep.Vtep.Ports.State.{PortState}
use govtep.Vtep.Ports.Events.{portbinding_create}
use govtep.Vtep.LogicalRouter.{logical_router_create}

-- `DatapathBindingGet`, `PortBindingGet` and `LogicalRouterGet`
pub record AllRows (W : Type 0) : Type 0 where
  pub datapath_binding_get : W → List TableDatapathBinding
  pub port_binding_get : W → List (Str × TablePortBinding)
  pub logical_router_get : W → List TableLogicalRouter

module _ {W : Type 0} (sb : Bindingdb W) (db : Portdb W) (vnets : Vnetdb W) (vtepdb : Vtepdb W)
    (nb : Ovnnb W) (load_balancer_get : W → List Str) (pbr_nh_update : W → W)
    (rows : AllRows W) where
  create_datapaths : PortState W → PortState W
  unfolding for_each
  create_datapaths s = record s {
    world = for_each (rows.datapath_binding_get s.world) (vnet_create vnets) s.world;
  }

  create_ports : List (Str × TablePortBinding) → PortState W → Option (PortState W)
  create_ports [] s = some s
  create_ports ((id, row) ∷ bindings) s =
      portbinding_create sb db pbr_nh_update row id s >>= create_ports bindings

  create_routers : PortState W → PortState W
  unfolding for_each
  create_routers s = record s {
    world =
        for_each (rows.logical_router_get s.world)
          (logical_router_create vtepdb nb load_balancer_get) s.world;
  }

  -- `vnetProcessAll`
  vnet_process_all : PortState W → Option (PortState W)
  unfolding create_datapaths create_ports create_routers
  vnet_process_all s =
      let s1 = create_datapaths s in
      create_ports (rows.port_binding_get s1.world) s1 >>= (λ s2. some (create_routers s2))
