-- ===== src/Flight.antt =====
-- The transaction list of packages/tx-flight-react/src.
pub mod Types
pub mod Reducers
pub mod Store
