-- ===== src/Installation/Sync.antt =====
-- skill_installation/application/use_cases/install_from_requirements.py
pub mod Ports
pub mod Outcome
pub mod Reconcile
pub mod Desired
pub mod Execute
