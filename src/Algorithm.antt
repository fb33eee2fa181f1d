-- ===== src/Algorithm.antt =====
-- node/algorithm: the pluggable algorithms over NodeAPI.
pub mod Raft
pub mod Gossip
pub mod Replica
pub mod Sampling
pub mod Weaknet
