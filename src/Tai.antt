-- ===== src/Tai.antt =====
-- The switch abstraction interface of tai/: the driver registry, the objects and their tables, and
-- the handling of the updates that the VTEP database sends (tai.go, tai_common.go).
pub mod Object
pub mod Registry
pub mod Attrs
pub mod Handler
pub mod Initial
pub mod Rows
pub mod Tunnel
