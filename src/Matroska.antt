-- ===== src/Matroska.antt =====
-- The Matroska parser of src/probe/mkv.rs.
pub mod Element
pub mod Parts
pub mod Encode
pub mod Walk
pub mod Ids
pub mod Read
pub mod Index
pub mod Runs
