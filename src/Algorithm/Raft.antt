-- ===== src/Algorithm/Raft.antt =====
-- node/algorithm/raft/raft.go: the handlers of the Raft algorithm.
-- A handler takes the node's view and the state, and returns the new state, whose `trace` has the
-- calls that it made of NodeAPI and of the apply callback; `panic` is a run-time panic.
-- Terms and indices are `uint32`, ids are `uint16`, durations are nanoseconds that are not negative.
pub mod State
pub mod Log
pub mod Core
pub mod Handlers
pub mod Replication
pub mod Calls
pub mod Safety
pub mod Cluster
pub mod Elections
pub mod Commitment
pub mod Faults
mod Tests
