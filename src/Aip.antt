-- ===== src/Aip.antt =====
-- pkg/aip: the parts of a list request that no database takes part in.
pub mod Errors
pub mod Order
pub mod Runtime
pub mod Decimal
pub mod Codec
pub mod Page
pub mod Filter
