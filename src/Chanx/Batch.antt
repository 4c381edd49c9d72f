-- ===== src/Chanx/Batch.antt =====
-- chanx/batch.go and chanx/chanx.go: batches over one channel.
pub mod System
pub mod Order
mod Examples
