-- ===== src/Scope.antt =====
-- scope.go, spawner.go and options.go: the scope, its tasks and its options.
pub mod Config
pub mod Options
mod Defs
pub mod Tasks
pub mod System
pub mod Handle
pub mod Counting
pub mod Invariant
pub mod Safety
pub mod Progress
pub mod Reports
pub mod Snapshots
pub mod Aggregation
pub mod Finalization
pub mod Lasting
pub mod Stages
pub mod Waits
pub mod Returning
mod Examples
mod WaitExamples
unfoldable pub use Defs.*
