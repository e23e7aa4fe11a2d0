-- ===== src/Vtep.antt =====
-- go_vtep: what follows the OVN databases and fills the VTEP database.
pub mod Databases
pub mod Diff
pub mod PolicyRoute
pub mod Backends
pub mod LoadBalancer
pub mod Nat
pub mod Names
pub mod Locator
pub mod Vnet
pub mod Ports
pub mod Acl
pub mod Switches
pub mod LogicalRouter
pub mod Notify
pub mod ProcessAll
