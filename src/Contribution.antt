-- ===== src/Contribution.antt =====
-- skill_contribution/: the preparation of an upstream commit for a changed skill. The children have
-- the records, the reader of the lockfile, the adapters of git and the use case.
pub mod Errors
pub mod Records
pub mod References
pub mod Lockfile
pub mod Git
pub mod Workspace
pub mod Checkout
pub mod Catalog
pub mod Directory
pub mod Regeneration
pub mod Execute
pub mod Written
pub mod Resolution
