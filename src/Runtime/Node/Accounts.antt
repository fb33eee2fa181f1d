-- ===== src/Runtime/Node/Accounts.antt =====
-- node/runtime/node.go: whatever the events of a node, where every message that it numbers or receives ends.
use uav.Base.{ℕ, ◌<◌, ◌≡◌, refl, Bool, some, String, List, [], ◌∷◌, arith, nat_key}
use uav.Message.{Message, broadcast_id}
use uav.Metrics.Collector.Totals.{total}
use uav.Runtime.Heap.Tally.{tally}
use uav.Runtime.Peers.{list_ids}
use uav.Runtime.Sending.{timestamp_or}
use uav.Runtime.SendQueue.Contents.{new_send_queue-IsQueue}
use uav.Runtime.Node.{Node, new_node, node_broadcast}
use uav.Runtime.Node.Balance.{Balance, times, handed_over, accepted}
use uav.Runtime.Node.Balance.Queueing.{list_ids-known, submit_all-Balance, node_send-Balance}
use uav.Runtime.Node.Balance.Arrivals.{receive-Balance, node_add_peer-Balance}
use uav.Runtime.Node.Balance.Forwarding.{send_next-Balance}
use uav.Runtime.Node.Events.{
  Event, peer_added, sending, broadcasting, turn_of_send_loop, arriving, arrivals, step, history,
}

module _ (tr_send : ℕ → String → Message → Bool) where
  step-Balance :
      (event : Event) (earlier : List Event) (n : Node)
      → Balance (arrivals earlier) [] n
      → (n' : Node) × (step tr_send event n ≡ some n') × Balance (arrivals (event ∷ earlier)) [] n'
  unfolding step node_broadcast arrivals
  step-Balance (peer_added id addr) earlier n b =
      (_, refl, node_add_peer-Balance (arrivals earlier) id addr n b)
  step-Balance (sending millis peer m) earlier n b =
      let (ok, n', e, b') = node_send-Balance (arrivals earlier) millis peer m n b in
      (n', rw e refl, b')
  step-Balance (broadcasting millis m) earlier n b =
      let filled : Message = record m {
        from = n.out.id;
        to = broadcast_id;
        timestamp = timestamp_or millis m;
      } in
      submit_all-Balance (arrivals earlier) (list_ids n.out.pm) filled n b
        (λ id. list_ids-known id n.out.pm)
  step-Balance turn_of_send_loop earlier n b =
      let (more, n', e, b') = send_next-Balance (arrivals earlier) tr_send n b in
      (n', rw e refl, b')
  step-Balance (arriving m now) earlier n b =
      (_, refl, receive-Balance (arrivals earlier) m now n b)

  new_node-Balance : (id size : ℕ) → 0 < size → Balance [] [] (new_node id size)
  unfolding new_node total tally times handed_over accepted
  new_node-Balance id size room = record {
    queue = new_send_queue-IsQueue size room;
    known = refl;
    outbound = omega arith;
    unaltered = λ p. omega arith;
    forwarded = refl;
    refused = refl;
    inbound = omega arith;
    counted = refl;
    genuine = λ p. omega arith;
  }

  -- A node with room in its queue never panics, whatever its events and their order. The messages
  -- that it has numbered for a peer are as many as the calls of Transport.Send, the evicted
  -- messages and those still queued together; those that pass any given test are at least as many
  -- as the ones among the messages of these calls and of the queue that pass it, so that no
  -- message is sent that was not numbered, none more often than it was numbered, and none
  -- altered. The calls that returned nil are as many as the messages counted as sent, and the
  -- others as those counted as failed. The messages that were received are as many as those
  -- counted as received, and as those delivered, counted as duplicates and counted as expired
  -- together; those that were delivered were received, unaltered, and none is delivered more
  -- often than it was received. The queue is well formed and holds messages for peers of the node
  -- only.
  pub history-Balance :
      (id size : ℕ) (events : List Event)
      → 0 < size
      → (n : Node) × (history tr_send id size events ≡ some n) × Balance (arrivals events) [] n
  unfolding history arrivals
  history-Balance id size [] room = (new_node id size, refl, new_node-Balance id size room)
  history-Balance id size (event ∷ earlier) room =
      let (n, e, b) = history-Balance id size earlier room in
      let (n', f, b') = step-Balance event earlier n b in (n', rw e f, b')
