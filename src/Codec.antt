-- ===== src/Codec.antt =====
-- The codec headers of src/probe/mod.rs: what a stream's own headers say of its colours and its codec.
pub mod Video
pub mod Bits
pub mod Colour
pub mod Av1
pub mod Hevc
pub mod Trailing
pub mod Names
pub mod Records
pub mod Runs
