-- ===== src/Tests.antt =====
-- The properties at concrete inputs, and runs of the code.
mod Kernel
mod Documents
mod Registry
mod Entries
mod References
mod Sync
mod Transaction
mod Direct
mod Locking
mod Lockfile
mod Contribution
mod Regeneration
