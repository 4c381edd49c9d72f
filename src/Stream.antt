-- ===== src/Stream.antt =====
-- stream.go and stream_ops.go: pull-based streams.
mod Defs
pub mod Runs
pub mod Consumers
pub mod Draining
pub mod Combinators
pub mod Yielding
pub mod Grouping
pub mod Batching
pub mod Pairing
mod Examples
pub mod Parallel
pub mod Cutting
pub mod Dropping
pub mod Sourcing
pub mod Sources
unfoldable pub use Defs.*
