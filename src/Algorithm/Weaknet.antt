-- ===== src/Algorithm/Weaknet.antt =====
-- node/algorithm/weaknet/weaknet.go: push-pull delta synchronisation.
pub mod State
pub mod Handlers
pub mod Sync
pub mod Versions
pub mod Cluster
mod Tests
