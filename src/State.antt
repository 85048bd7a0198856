-- ===== src/State.antt =====
-- The memories of src/state.rs: releases opened lately, releases known, releases that play nowhere.
pub mod Opened
pub mod Known
pub mod Unplayable
pub mod Runs
