-- ===== src/Capture.antt =====
-- The capture path of crates/sensor-capture.
pub mod Pcap
