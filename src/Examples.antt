-- ===== src/Examples.antt =====
-- Concrete databases, drivers and updates at which the theorems apply.
pub mod Tai
pub mod Ovsdb
pub mod Ecmp
pub mod Uninos
pub mod Vtep
pub mod Networks
pub mod Ports
pub mod Acls
pub mod Switches
pub mod Driver
pub mod Routers
pub mod Notify
pub mod Rows
pub mod Gateways
pub mod Neighbours
