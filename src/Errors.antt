-- ===== src/Errors.antt =====
-- panic.go and task_error.go: Go's `error` values, the two error types of the package, and the
-- functions that look through an error's chain. `errors.As` and `errors.Join` are Go's own.
mod Values
mod Chain
pub mod Laws
mod Examples
unfoldable pub use Values.*
unfoldable pub use Chain.*
