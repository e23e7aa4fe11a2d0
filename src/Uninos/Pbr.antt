-- ===== src/Uninos/Pbr.antt =====
-- The policy based routes of driver/uninos/unos_pbr.go.
pub mod Ecmp
pub mod Sequence
pub mod Acl
pub mod Route
