-- ===== src/Subs.antt =====
-- Subtitles, src/subs.rs: which renditions a session names, and the documents that they serve.
pub mod Plan
pub mod Runs
