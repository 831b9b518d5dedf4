-- ===== src/Wal.antt =====
-- The write-ahead log of one priority level: crates/sensor-buffer/src/log.rs.
pub mod Tests
pub mod Record
pub mod Segment
pub mod Directory
pub mod Log
