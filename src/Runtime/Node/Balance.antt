-- ===== src/Runtime/Node/Balance.antt =====
-- node/runtime/node.go: the books of a node, of what it has sent and what it has received.
pub mod Queueing
pub mod Arrivals
pub mod Forwarding
use uav.Base.{
  ℕ, ◌+◌, ◌≤◌, ◌≡◌, if◌then◌else◌, inl, inr, ◌⊎◌, refl, sym, ap, ◌∙◌, ◌==◌, not, Bool, true, false,
  some, Option-cases, Bool-cases, String, List, [], ◌∷◌, arith, length, nat_key,
}
use uav.Base.Map
use uav.Message.{Message, is_expired}
use uav.Metrics.Collector.Totals.{Call, total, sent, received, duplicates, expired, evicted, failed}
use uav.Runtime.Heap.{MsgHeap}
use uav.Runtime.Heap.Order.{at}
use uav.Runtime.Heap.Tally.{tally}
use uav.Runtime.Peers.{PeerManager, Peer, add, get_peer, list_ids}
use uav.Base.Map.{is_some, listed, listed-keys}
use uav.Runtime.Router.{
  Outcome, Router, ttl_drop, dedup_drop, deliver, dispatch, router_is_duplicate,
}
use uav.Runtime.Sending.{Outbound, add_peer, push_to_peer, next_seq, timestamp_or}
use uav.Runtime.SendQueue.{SendQueue}
use uav.Runtime.SendQueue.Contents.{IsQueue, tally-none, none-tally}
use uav.Runtime.SendQueue.Push.{Pushes, push-IsQueue}
use uav.Runtime.SendQueue.Drain.{pop-IsQueue, pop-empty}
use uav.Runtime.Node.{
  Node, Transmission, node_add_peer, enqueue, submit, node_send, submit_all, settle, receive,
  transmit, send_next,
}

-- The message is for no peer of the node.
abbrev pub unaddressed : PeerManager → Message → ℕ → Bool
unaddressed pm m seq = not (is_some (get_peer m.to pm))

-- How many of the messages pass a test.
unfoldable pub times : (Message → Bool) → List Message → ℕ
times p [] = 0
times p (m ∷ ms) = (if p m then 1 else 0) + times p ms

-- How many of the calls of Transport.Send were for a message that passes a test.
unfoldable pub handed_over : (Message → Bool) → List Transmission → ℕ
handed_over p [] = 0
handed_over p (t ∷ ts) = (if p t.msg then 1 else 0) + handed_over p ts

-- How many of them returned nil.
unfoldable pub accepted : List Transmission → ℕ
accepted [] = 0
accepted (t ∷ ts) = (if t.ok then 1 else 0) + accepted ts

-- `arrived` holds the messages that recvLoop has received, `debt` those that are numbered or popped
-- and not yet pushed or forwarded.
pub record Balance (arrived debt : List Message) (n : Node) : Type 0 where
  pub queue : IsQueue n.sq
  pub known : tally (unaddressed n.out.pm) n.sq.h ≡ 0
  -- The messages that were numbered are those that the transport got, those that were evicted, those in
  -- the queue and the debt.
  pub outbound :
      length n.out.pushed
      ≡ length n.transmitted + total evicted n.calls + length n.sq.h + length debt
  -- Each message, however often it was numbered, is at most as often among what the transport got, the
  -- queue and the debt.
  pub unaltered :
      (p : Message → Bool)
      → handed_over p n.transmitted + tally (λ m seq. p m) n.sq.h + times p debt
        ≤ times p n.out.pushed
  pub forwarded : accepted n.transmitted ≡ total sent n.calls
  pub refused : length n.transmitted ≡ total sent n.calls + total failed n.calls
  pub inbound :
      total received n.calls ≡ total duplicates n.calls + total expired n.calls + length n.delivered
  pub counted : total received n.calls ≡ length arrived
  -- Each message was delivered at most as often as it has arrived.
  pub genuine : (p : Message → Bool) → times p n.delivered ≤ times p arrived
