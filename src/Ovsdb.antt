-- ===== src/Ovsdb.antt =====
-- lib/ovsdb_client: the rows that a monitor delivers (common.go) and the client that runs
-- transactions (client.go).
pub mod Rows
pub mod Client
