-- ===== src/Lib.antt =====
-- The communication framework for UAV networks: messages and their codec, the TCP framing, the
-- node with its registry of peers, send queue, timers, metrics and inbound router with its duplicate
-- filter, and the Raft, gossip and push-pull algorithms that plug into it.
--
-- A message travels from an algorithm through NodeAPI.Send to the node's send queue, from which the
-- send loop takes it to a transport, which encodes it; the receiving transport decodes it, and the
-- receive loop hands it to the router, which drops it if it is expired or a duplicate, and passes it
-- to the algorithm's OnMessage otherwise. The collector counts what happens to it on the way.
--
-- Base         shared names, native lists, machine words, maps as association lists
-- Message      pkg/message/message.go: the message record, constants, IsExpired
-- Codec        node/transport/codec/codec.go: encodeRaw, decodeRaw, Encode, Decode
-- Transport    node/transport/tcp/tcp.go: makeFrame, readFrame, the loop of handleConn (Tcp), the pool
--              of connections and Send (Pool); node/transport/udp/udp.go: readLoop and Send (Udp)
-- Metrics      node/metrics/collector.go: the latency ring (Ring) and the counters (Collector);
--              node/metrics/snapshot.go: Snapshot, latencyStats, percentile and the exports (Snapshot);
--              node/metrics/reporter.go: the periodic reports and their CSV file (Reporter)
-- Runtime      node/runtime/router.go: msgHeap with container/heap (Heap), SendQueue (SendQueue),
--              peerDedup (Dedup) and Router (Router); node/runtime/peer.go (Peers);
--              node/runtime/timer.go (Timers); node/runtime/node.go: the numbering of outbound
--              messages (Sending), and the node over its queue, router, peers and collector with
--              the bodies of its two loops, its Start and its Stop (Node)
-- Algorithm    node/algorithm/raft/raft.go (Raft): the handlers in Core and Handlers, and the proofs
--              in Replication, Calls, Safety, Elections, Commitment and Faults, and in Cluster, where
--              nodes exchange messages over a network that loses and reorders them, delivers none
--              twice and forges none: Ledger has the books of the votes, Election and Majority what
--              follows for leaders, Inbox what OnMessage does;
--              gossip/gossip.go (Gossip) and weaknet/weaknet.go (Weaknet): the handlers, and the
--              proofs in Rounds and History, in Sync, Versions and Cluster. Replica is the versioned
--              map that both keep, Set and merge, and Sampling their sampleN
-- Config       node/config/config.go: the settings and their defaults
-- Cmd          cmd/node/main.go: parsePeers (Peers); cmd/gossip_bench/main.go: the loop that waits for
--              the nodes to agree and the check after it (Bench)
--
-- Numbers are native. A w-bit unsigned number wraps explicitly, an int64 is its two's complement
-- pattern, durations and random draws are natural numbers. Time, the node's peers and random draws
-- are arguments or fields of the state. zlib, encoding/json, rng.Perm, floating-point
-- numbers and the answers of the network are parameters. A handler returns the new state with the
-- trace of its calls, or a panic where the Go code would panic.
--
-- The loops on fuel are handle_conn, where fuel above the number of frames is enough, the sift loops
-- of the heap and the rounds of the send loop, where fuel above the length of the heap is; the
-- rounds of applyCommitted are the number of entries to apply.
--
-- A step is what runs under one lock; where Push lets go of its lock before it notifies, the steps
-- are split. No lock covers the whole of Send and Broadcast: Sending/Interleaving has goroutines
-- that number and push their messages in any order, and elsewhere such a call is one step, as on a
-- node where one goroutine sends at a time. In handle_conn the user of the channel and the other
-- connections act between the frames of the loop, as its arguments say.
-- Not modelled: the listeners of the transports, logging outside the reporter, and flags.
pub mod Base
pub mod Message
pub mod Codec
pub mod Transport
pub mod Metrics
pub mod Runtime
pub mod Algorithm
pub mod Config
pub mod Cmd
