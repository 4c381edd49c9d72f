-- ===== src/Pool.antt =====
-- pool.go: the worker pool.
mod Defs
pub mod System
pub mod Counting
pub mod Shutting
pub mod Invariant
pub mod Options
pub mod Closing
pub mod Termination
mod Examples
unfoldable pub use Defs.*
