-- ===== src/Container.antt =====
-- The container layer: src/container.
pub mod Ifc
pub mod Sandbox
pub mod Docker
