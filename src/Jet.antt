-- ===== src/Jet.antt =====
-- pkg/aip/jet: list requests over go-jet and PostgreSQL.
pub mod Sql
pub mod Schema
pub mod Cursor
pub mod Plan
pub mod Keyset
pub mod Execute
pub mod Filter
