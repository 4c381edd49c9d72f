-- ===== src/Chanx.antt =====
-- chanx: the channel package.
pub mod Rounds
pub mod Transform
pub mod Transforming
pub mod Live
pub mod Buffer
pub mod Buffering
pub mod Timed
pub mod Rates
pub mod Tumbling
pub mod Sliding
pub mod Routing
pub mod Delivery
pub mod Spreading
pub mod RoundRobin
pub mod Closable
pub mod Batch
pub mod Merge
mod Examples
