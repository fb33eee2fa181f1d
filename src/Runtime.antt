-- ===== src/Runtime.antt =====
-- node/runtime: the framework layer.
pub mod Dedup
pub mod Router
pub mod Peers
pub mod Heap
pub mod SendQueue
pub mod Timers
pub mod Node
pub mod Sending
