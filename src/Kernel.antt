-- ===== src/Kernel.antt =====
-- The validation that the features share: src/ritebook/shared_kernel.
pub mod Errors
pub mod Identifiers
pub mod TextSafety
pub mod PortablePaths
pub mod CatalogPaths
pub mod GitBranches
pub mod GitSources
pub mod StrictJson
pub mod Timestamps
pub mod SchemaV1
