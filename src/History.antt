-- ===== src/History.antt =====
-- The history of usage: src/quota_monitor/sync_service.py and the part of database.py that keeps
-- collection runs, their slices and the usage rows. Instants are Unix seconds.
pub mod Ranges
pub mod Coverage
pub mod Runs
mod Tests
pub mod Usage
pub mod Reconcile
pub mod Sync
