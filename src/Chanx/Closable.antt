-- ===== src/Chanx/Closable.antt =====
-- chanx/closable.go: the channel with an idempotent close.
pub mod System
pub mod Answers
pub mod Refusal
mod Examples
