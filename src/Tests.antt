-- ===== src/Tests.antt =====
-- Concrete instances of the parameters, and the theorems at them.
mod Runtime
mod Database
mod Paging
mod Texts
mod Filters
mod Plans
mod Plugin
mod Emitted
