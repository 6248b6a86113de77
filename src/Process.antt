-- ===== src/Process.antt =====
-- The output of child processes (_lib/proj/_app/src/command_event.rs, utf8_output.rs and
-- process_runner/monitor.rs).
pub mod Utf8
pub mod Frames
pub mod Reader
mod Tests
