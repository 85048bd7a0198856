-- ===== src/Http.antt =====
-- The byte ranges that the program serves: what a request asks for (session.rs, source.rs), the
-- files cut to it (session.rs), and the response around them.
pub mod Range
pub mod ContentRange
pub mod Parts
pub mod Response
pub mod Runs
pub mod Files
