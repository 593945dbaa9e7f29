-- ===== src/Tracker.antt =====
-- The transaction tracker, packages/tx-tracker/src.
pub mod Reorg
pub mod Events
pub mod Observations
pub mod Snapshots
pub mod Selectors
pub mod Store
pub mod State
pub mod Capabilities
pub mod Bulk
pub mod Blocks
pub mod Mempool
pub mod Runs
pub mod Polls
pub mod Group
pub mod Wait
