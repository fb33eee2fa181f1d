-- ===== src/Runtime/Node.antt =====
-- node/runtime/node.go, Node: its parts put together, with the bodies of sendLoop and recvLoop.
-- `none` is a panic. The calls on the collector, on the transport and of OnMessage are lists with the
-- last one first.
pub mod Events
pub mod Balance
pub mod Accounts
pub mod Rounds
pub mod Wakeups
pub mod Reports
pub mod Lifecycle
mod Tests
use uav.Base.{
  ℕ, zero, suc, ◌+◌, Bool, true, false, Option, none, some, String, List, [], ◌∷◌, if◌then◌else◌,
  ◌>>=◌, length,
}
use uav.Message.{Message, broadcast_id, header_size}
use uav.Metrics.Collector.Totals.{Call, send, recv, count_dedup, count_ttl, queue_drop, send_error}
use uav.Runtime.Peers.{Peer, get_peer, list_ids}
use uav.Runtime.Router.{Router, Outcome, ttl_drop, dedup_drop, deliver, new_router, dispatch}
use uav.Runtime.Sending.{Outbound, new_outbound, add_peer, next_seq, timestamp_or, push_to_peer}
use uav.Runtime.SendQueue.{SendQueue, new_send_queue, push, pop}

-- A call of Transport.Send and whether it returned nil.
pub record Transmission : Type 0 where
  pub addr : String
  pub msg : Message
  pub ok : Bool

-- `out` holds the id, the peers and the sequence counters.
pub record Node : Type 0 where
  pub out : Outbound
  pub sq : SendQueue
  pub rt : Router
  pub calls : List Call
  pub transmitted : List Transmission
  pub delivered : List Message

-- NewNode with a collector and this size of the queue.
unfoldable pub new_node : ℕ → ℕ → Node
unfolding new_outbound new_send_queue new_router
new_node id size = record {
  out = new_outbound id;
  sq = new_send_queue size;
  rt = new_router id;
  calls = [];
  transmitted = [];
  delivered = [];
}

-- AddPeer.
unfoldable pub node_add_peer : ℕ → String → Node → Bool × Node
unfolding add_peer
node_add_peer id addr n = let (ok, out) = add_peer id addr n.out in (ok, record n { out = out })

-- A Push to the node's queue, which tells the collector of an eviction.
unfoldable pub enqueue : Message → Node → Option Node
unfolding push
enqueue m n = do
  (evicted, q) ← push m n.sq
  some (record n { sq = q; calls = if evicted then queue_drop ∷ n.calls else n.calls })

-- A message numbered and pushed, as Send and the loop of Broadcast do.
unfoldable pub submit : ℕ → Message → Node → Option Node
unfolding enqueue push_to_peer next_seq
submit peer m n =
    enqueue (record m { to = peer; seq = (next_seq m.stream_id n.out).0 })
      (record n { out = push_to_peer peer m n.out })

-- Send; `false` is the error for an unknown peer.
unfoldable pub node_send : ℕ → ℕ → Message → Node → Option (Bool × Node)
unfolding submit
node_send millis peer m n =
    let accept : Option (Bool × Node) = do
      n' ← submit peer (record m { from = n.out.id; timestamp = timestamp_or millis m }) n
      some (true, n')
    in elim (get_peer peer n.out.pm) [ none ↦ some (false, n) | some p ↦ accept ]

-- The loop of Broadcast.
unfoldable pub submit_all : List ℕ → Message → Node → Option Node
unfolding submit
submit_all [] m n = some n
submit_all (peer ∷ rest) m n = submit peer m n >>= λ n'. submit_all rest m n'

-- Broadcast.
unfoldable pub node_broadcast : ℕ → Message → Node → Option Node
unfolding submit_all
node_broadcast millis m n =
    submit_all (list_ids n.out.pm)
      (record m { from = n.out.id; to = broadcast_id; timestamp = timestamp_or millis m }) n

-- What Dispatch does once it has decided, after the call of RecordRecv.
unfoldable pub settle : Message → ℕ → Outcome → Router → Node → Node
settle m now outcome rt n =
    let received = recv m (header_size + length m.payload) now ∷ n.calls in
    elim outcome [
      | ttl_drop ↦ record n { rt = rt; calls = count_ttl ∷ received }
      | dedup_drop ↦ record n { rt = rt; calls = count_dedup ∷ received }
      | deliver m' ↦ record n { rt = rt; calls = received; delivered = m' ∷ n.delivered }
    ]

-- recvLoop with a message that the transport has received, at a time in milliseconds.
unfoldable pub receive : Message → ℕ → Node → Node
unfolding settle
receive m now n = let (outcome, rt) = dispatch n.rt m now in settle m now outcome rt n

-- `tr_send` stands for the transport: whether its Send returns nil, given the number of calls before.
module _ (tr_send : ℕ → String → Message → Bool) where
  -- What sendLoop does with a message from the queue.
  unfoldable pub transmit : Message → Node → Node
  transmit m n =
      let forward = λ (addr : String).
        let ok = tr_send (length n.transmitted) addr m in
        let wire_bytes = header_size + length m.payload in
        record n {
          transmitted = record { addr = addr; msg = m; ok = ok } ∷ n.transmitted;
          calls = (if ok then send m wire_bytes else send_error) ∷ n.calls;
        } in
      elim (get_peer m.to n.out.pm) [ none ↦ n | some p ↦ forward p.addr ]

  -- One turn of the inner loop of sendLoop; `false` is its break.
  unfoldable pub send_next : Node → Option (Bool × Node)
  unfolding pop
  send_next n = do
    (popped, q) ← pop n.sq
    some (elim popped [
      | none ↦ (false, record n { sq = q })
      | some m ↦ (true, transmit m (record n { sq = q }))
    ])

  -- The inner loop of sendLoop; fuel above the length of the queue is enough.
  unfoldable pub send_round : ℕ → Node → Option Node
  unfolding send_next
  send_round zero n = none
  send_round (suc k) n =
      send_next n >>= λ turn. let rest = send_round k turn.1 in if turn.0 then rest else some turn.1
