-- ===== src/Submit.antt =====
-- src/submit.rs: the buffers that the shell may still be reading, and the fds that go to it.
pub mod Holds
pub mod Planes
pub mod Views
pub mod Scenes
