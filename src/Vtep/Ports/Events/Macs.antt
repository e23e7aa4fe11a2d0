-- ===== src/Vtep/Ports/Events/Macs.antt =====
-- A change of the column `mac` of a remote port.
use govtep.Base.{◌≡◌, Str}
use govtep.Vtep.Diff.{member}
use govtep.Vtep.Diff.Members.{Distinct}
use govtep.Vtep.Ports.Databases.{Portdb, TablePortBinding, Bindingdb}
use govtep.Vtep.Ports.Info.{define_port_proc_branch, lsp_ac_remote}
use govtep.Vtep.Ports.Address.{address_parser}
use govtep.Vtep.Ports.Fdb.Refinement.{has_mac, FdbLaws, remote_fdb_update_lem}
use govtep.Vtep.Ports.Parser.{portbinding_parser}
use govtep.Vtep.Ports.State.{PortState, branch_number, same_branch, set_port}
use govtep.Vtep.Ports.Events.{OldMac, old_addresses, portbinding_update_mac}

-- When the old MACs of a remote port of a switch are those of its bridge domain, the bridge domain
-- has exactly the MACs of the new row after the update, if the new row has no MAC twice and the
-- database carries out the writes.
pub portbinding_update_mac_lem :
    {W : Type 0} (sb : Bindingdb W) (db : Portdb W) (nh : W → W) (row : TablePortBinding)
    (old : OldMac) (uuid k : Str) (s : PortState W)
    → FdbLaws db
    → define_port_proc_branch (portbinding_parser sb db row s.world).0 ≡ lsp_ac_remote
    → Distinct (address_parser row.mac).macs
    → has_mac db
        (portbinding_parser sb db row s.world).1
        (portbinding_parser sb db row s.world).0.bd
        k
      ≡ member k (address_parser (old_addresses old)).macs
    → has_mac db
        (portbinding_update_mac sb db nh row old uuid s).world
        (portbinding_parser sb db row s.world).0.bd
        k
      ≡ member k (address_parser row.mac).macs
unfolding portbinding_update_mac same_branch set_port branch_number
portbinding_update_mac_lem sb db nh row old uuid k s laws e distinct h =
    let (port, w) = portbinding_parser sb db row s.world in
    rw e (
      remote_fdb_update_lem db port.bd port.locator k (address_parser (old_addresses old)).macs
        (address_parser row.mac).macs w laws distinct h)
