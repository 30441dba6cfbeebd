-- ===== src/Logs.antt =====
-- crates/ibis-ingest-logs/src: the tailer of log files (Logs.Tailer).
pub mod Tailer
mod Tests
