-- ===== src/Installation.antt =====
-- The installation of skills: src/ritebook/features/skill_installation.
pub mod Errors
pub mod References
pub mod Records
pub mod Targets
pub mod Sync
pub mod Transaction
pub mod Direct
pub mod State
