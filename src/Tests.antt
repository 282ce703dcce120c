-- ===== src/Tests.antt =====
-- Concrete runs: the theorems at inputs that exercise the code.
mod Timing
mod Buffers
mod Submit
mod Submits
mod Formats
mod Staging
mod Binding
mod Scenes
mod Pacing
mod Interface
mod Readiness
mod Link
mod Windows
mod Input
mod Copies
mod Scanouts
mod Trees
