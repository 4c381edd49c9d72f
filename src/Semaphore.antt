-- ===== src/Semaphore.antt =====
-- semaphore.go: the weighted semaphore.
pub mod System
pub mod Bounds
mod Examples
