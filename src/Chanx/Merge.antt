-- ===== src/Chanx/Merge.antt =====
-- chanx/merge.go, `Merge`: its goroutines and the output.
pub mod System
pub mod Forwarding
pub mod Interleaving
mod Examples
