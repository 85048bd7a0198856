-- ===== src/Sessions.antt =====
-- The sessions of a server: which may start and for how long they are kept (src/state.rs), and what one of them
-- serves and when its producer runs (src/session.rs).
pub mod Admission
pub mod Starts
pub mod Gops
pub mod Producer
pub mod Runs
