-- ===== src/Agent.antt =====
-- The agent: agent/internal/shipper/shipper.go (Shipper) and agent/internal/scheduler/scheduler.go
-- (Scheduler); Accounts proves of the shipper.
pub mod Shipper
pub mod Accounts
pub mod Scheduler
mod Examples
