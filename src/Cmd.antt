-- ===== src/Cmd.antt =====
-- cmd/node and cmd/gossip_bench: what the commands read from a flag and check themselves.
pub mod Peers
pub mod Bench
