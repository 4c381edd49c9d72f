-- ===== src/Stream/Parallel.antt =====
-- stream.go, `ParallelMap`.
mod Defs
pub mod System
pub mod Indices
pub mod Weights
pub mod Counting
pub mod Invariant
pub mod Places
pub mod Contents
pub mod Calm
pub mod Delivery
pub mod Turns
pub mod Progress
pub mod Pending
pub mod Ordering
mod Examples
unfoldable pub use Defs.*
