-- ===== src/Vtep/Ports.antt =====
-- go_vtep/port.go and what it calls: the port bindings of the OVN southbound database, and the ports,
-- routes, neighbours and remote MACs that they become in the VTEP database.
pub mod Databases
pub mod Route
pub mod Neighbour
pub mod Fdb
pub mod Info
pub mod Layers
pub mod Address
pub mod Belong
pub mod Lookup
pub mod Parser
pub mod Localnet
pub mod Branches
pub mod State
pub mod Events
pub mod Generate
