-- ===== src/Gas.antt =====
-- The gas oracle: packages/gas-oracle/src, a module for each source file.
pub mod Types
pub mod Tip
pub mod Percentile
pub mod Tiers
pub mod Blob
pub mod Ring
pub mod State
pub mod Position
pub mod Classify
pub mod Replacement
pub mod Samples
pub mod Reduce
pub mod Lifecycle
