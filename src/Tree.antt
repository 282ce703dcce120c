-- ===== src/Tree.antt =====
-- src/tree.rs: a view's surface trees as the layers that the shell draws.
pub mod Orientation
pub mod Build
pub mod Found
pub mod Visited
pub mod Scene
