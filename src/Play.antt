-- ===== src/Play.antt =====
-- What a player takes of a release, and how it is sent: the decisions of src/session.rs.
pub mod Playable
pub mod Fit
pub mod Audio
pub mod Link
pub mod Runs
