-- ===== src/Result.antt =====
-- result.go: a task's typed value.
pub mod Defs
pub mod Waiting
