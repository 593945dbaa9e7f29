-- ===== src/Siwe.antt =====
-- The sign-in stores, packages/siwe-store/src.
pub mod Nonces
pub mod Sessions
