-- ===== src/Scan.antt =====
-- The fingerprinting of episodes, src/segments.rs: the scan queue.
pub mod Queue
pub mod Match
pub mod Runs
