-- ===== src/Installation/Transaction.antt =====
-- skill_installation/adapters/outbound/installation_transaction/adapter.py
pub mod Session
pub mod Restore
pub mod Operations
pub mod Runs
pub mod Recovery
pub mod Crash
pub mod Stranded
