-- ===== src/Kernel.antt =====
-- The kernel: src/kernel.
pub mod Pmm
pub mod CapIpc
pub mod Coroutine
pub mod Slab
pub mod Vmm
