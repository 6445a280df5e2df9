-- ===== src/Registry.antt =====
-- The registry of indexes: src/ritebook/features/index_registry.
pub mod Errors
pub mod Records
pub mod Reader
pub mod Store
pub mod Lock
pub mod Document
pub mod Publish
pub mod AddIndex
pub mod UpdateIndex
pub mod Listing
pub mod Consistency
