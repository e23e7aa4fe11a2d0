-- ===== src/Vtep/Ports/Events/Moved.antt =====
-- A local port of a switch that moves to a remote chassis.
use govtep.Base.{
  ◌≡◌, refl, ap, ◌∙◌, ◌≢◌, none, some, List, [], ◌∷◌, if◌then◌else◌, Str, str_eq_self, ◌>>=◌,
}
use govtep.Vtep.Ports.Databases.{Portdb, TablePortBinding, Bindingdb}
use govtep.Vtep.Ports.Info.{
  PortInfo, ProcBranch, define_port_proc_branch, no_branch, lsp_ac_local, lsp_ac_remote,
}
use govtep.Vtep.Ports.Layers.{l2port_remove}
use govtep.Vtep.Ports.Layers.Undo.{l2port_remove-missing}
use govtep.Vtep.Ports.Info.Table.{define_port_proc_branch_lem}
use govtep.Vtep.Ports.Parser.{portbinding_parser}
use govtep.Vtep.Ports.Parser.PortName.{portbinding_parser-remote_name}
use govtep.Vtep.Ports.Branches.Frame.{RemoteFrame, create_remote-frame}
use govtep.Vtep.Ports.State.{PortState, branch_number, same_branch, type_of, set_port}
use govtep.Vtep.Ports.Events.Cache.{type_of-set_port}
use govtep.Vtep.Ports.Events.{update_chassis_to, portbinding_update_chassis}

not_none : lsp_ac_remote ≢ no_branch
not_none e = cc

module _ {W : Type 0} (sb : Bindingdb W) (db : Portdb W) (nh : W → W) where
  -- A port without a name is not found, so its removal does nothing.
  remove_unnamed :
      (port : PortInfo) (w : W)
      → port.name ≡ []
      → db.l2port_get_by_index1 w [] ≡ none
      → (l2port_remove db port w).1 ≡ w
  remove_unnamed port w e h = l2port_remove-missing db port w (ap (db.l2port_get_by_index1 w) e ∙ h)

  type_of-set :
      (k : Str) (port : PortInfo) (b : ProcBranch) (s : PortState W)
      → type_of k (set_port k port b s) ≡ b
  type_of-set k port b s =
      type_of-set_port k k port b s ∙ ap (λ q. if q then b else type_of k s) (str_eq_self k)

  unnamed :
      (row : TablePortBinding) (w : W)
      → define_port_proc_branch (portbinding_parser sb db row w).0 ≡ lsp_ac_remote
      → (portbinding_parser sb db row w).0.name ≡ []
  unnamed row w e =
      let (_, type, location) =
        (define_port_proc_branch_lem (portbinding_parser sb db row w).0 lsp_ac_remote not_none).0
          e in
      portbinding_parser-remote_name sb db row w type location

  moved :
      (port : PortInfo) (w : W) (k mac : Str) (macs : List Str) (s : PortState W)
      → RemoteFrame db nh db.l2port_get_by_index1
      → type_of k s ≡ lsp_ac_local
      → define_port_proc_branch port ≡ lsp_ac_remote
      → port.mac ≡ mac ∷ macs
      → port.name ≡ []
      → db.l2port_get_by_index1 w [] ≡ none
      → (t : PortState W) × (update_chassis_to sb db nh port w k s ≡ some t)
        × (type_of k t ≡ lsp_ac_remote)
        × (db.l2port_get_by_index1 t.world ≡ db.l2port_get_by_index1 w)
  unfolding update_chassis_to same_branch branch_number ◌>>=◌
  moved port w k mac macs s frame was now macs_are name no_name =
      let (v, made, same) =
        create_remote-frame sb db nh db.l2port_get_by_index1 port mac macs w frame macs_are in
      (
        set_port k port lsp_ac_remote (record s { world = v }),
        rw (was, now, remove_unnamed port w name no_name, made) refl,
        type_of-set k port lsp_ac_remote (record s { world = v }),
        same,
      )

  -- A local port of a switch with a MAC that becomes a remote one loses none of its L2 ports: what
  -- is removed is made from the new row, which gives the port no name, and the port is remote from
  -- then on. This holds where no L2 port has the empty name, and the writes of MACs, neighbours,
  -- routes and nexthop groups do not touch L2 ports.
  pub portbinding_update_chassis-stale :
      (row : TablePortBinding) (k mac : Str) (macs : List Str) (s : PortState W)
      → RemoteFrame db nh db.l2port_get_by_index1
      → type_of k s ≡ lsp_ac_local
      → define_port_proc_branch (portbinding_parser sb db row s.world).0 ≡ lsp_ac_remote
      → (portbinding_parser sb db row s.world).0.mac ≡ mac ∷ macs
      → db.l2port_get_by_index1 (portbinding_parser sb db row s.world).1 [] ≡ none
      → (t : PortState W) × (portbinding_update_chassis sb db nh row k s ≡ some t)
        × (type_of k t ≡ lsp_ac_remote)
        × (db.l2port_get_by_index1 t.world
            ≡ db.l2port_get_by_index1 (portbinding_parser sb db row s.world).1)
  unfolding portbinding_update_chassis
  portbinding_update_chassis-stale row k mac macs s frame was now macs_are no_name =
      let (port, w) = portbinding_parser sb db row s.world in
      moved port w k mac macs s frame was now macs_are (unnamed row s.world now) no_name
