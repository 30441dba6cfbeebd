-- ===== src/Settings.antt =====
-- crates/ibis-settings/src: the decoding of queries (http.rs), and the settings server that the
-- plugin starts, with its tokens and its end (ephemeral.rs).
pub mod Query
pub mod Ephemeral
mod Tests
