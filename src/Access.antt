-- ===== src/Access.antt =====
-- Who may ask: the actor of a request (crates/ibis-core/src/auth.rs and
-- crates/ibis-httpserver/src/auth.rs) and the gate on browser origins
-- (crates/ibis-httpserver/src/origin.rs).
pub mod Peer
pub mod Actor
pub mod Origin
mod Tests
