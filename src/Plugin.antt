-- ===== src/Plugin.antt =====
-- cmd/protoc-gen-go-jet: the plugin.
pub mod Plan
pub mod Identifier
pub mod ForeignKey
pub mod Sql
pub mod Validate
pub mod Apply
pub mod Check
pub mod Delta
pub mod Resolve
pub mod Entry
