-- ===== src/Uninos.antt =====
-- driver/uninos: the driver that writes the objects of tai/ to the switch's configuration database.
pub mod Databases
pub mod Names
pub mod Networks
pub mod Forwarding
pub mod Ports
pub mod StaticRoute
pub mod AclObjects
pub mod Gateway
pub mod Dispatch
pub mod Pbr
