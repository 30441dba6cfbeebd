-- ===== src/Git/Cache.antt =====
-- The ancestor cache: expiry, scoped invalidation, and that it never changes an answer.
pub mod Keys
pub mod Exact
pub mod Calls
