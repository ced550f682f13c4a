-- ===== src/Workflow.antt =====
-- PafioWorkflow/Dependencies.cpp: the commands that edit a manifest and bring its lockfile up to date.
pub mod Effects
pub mod Edit
pub mod Requests
pub mod Commands
pub mod Same
pub mod Restore
pub mod Commit
pub mod Atomic
pub mod Insert
pub mod Resolution
pub mod Sync
pub mod Locked
pub mod Synced
