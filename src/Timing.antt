-- ===== src/Timing.antt =====
-- src/timing.rs: the display's refresh cycle, what content updates wait on the screen for, and the
-- frames that wait for the shell's report.
pub mod Clock
pub mod Taken
pub mod Frames
