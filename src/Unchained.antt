-- ===== src/Unchained.antt =====
-- The reader of the Unchained Index, packages/unchained-reader/src.
pub mod Chunk
