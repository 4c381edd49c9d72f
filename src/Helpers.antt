-- ===== src/Helpers.antt =====
-- helpers.go: work on slices and retries.
mod Defs
pub mod Striping
pub mod Retrying
pub mod Mapping
pub mod Standing
pub mod Results
mod Examples
unfoldable pub use Defs.*
