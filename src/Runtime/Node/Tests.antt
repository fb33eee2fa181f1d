-- ===== src/Runtime/Node/Tests.antt =====
-- Examples of a node.
use uav.Metrics.Snapshot.{Floats}
use uav.Base.{
  ◌*◌, ◌/◌, ℕ, ◌≡◌, refl, ltb, Bool, true, false, some, String, List, [], ◌∷◌, map, arith, nat_key,
}
use uav.Base.Map
use uav.Message.{Message, zero_message}
use uav.Runtime.Heap.{QueueItem}
use uav.Runtime.Sending.{new_outbound}
use uav.Runtime.SendQueue.{SendQueue, new_send_queue, insert, notify}
use uav.Runtime.SendQueue.Drain.{Drains}
use uav.Runtime.SendQueue.Examples.{urgent, routine, full, full-IsQueue}
use uav.Runtime.Node.{Node, new_node, send_round}
use uav.Runtime.Node.Rounds.{addressed, forwards, send_round-forwards}
use uav.Runtime.Node.Events.{
  Event, peer_added, sending, broadcasting, turn_of_send_loop, arriving, arrivals, history,
}
use uav.Runtime.Node.Balance.{Balance}
use uav.Runtime.Node.Accounts.{history-Balance}
use uav.Runtime.Node.Wakeups.{
  Loop, inserted, notified, Reachable, started, stepped, Reachable-notified,
}

-- A transport whose first call fails.
abbrev answers : ℕ → String → Message → Bool
answers calls addr m = ltb 0 calls

-- Peer 2 is known, peer 3 is not.
abbrev sender : Node
sender = record (new_node 1 2) {
  out = record (new_outbound 1) {
    pm = record { peers = (2, record { id = 2; addr = "b:1" }) ∷ [] };
  };
  sq = full;
}

forwarded : forwards sender.out.pm (urgent ∷ routine ∷ []) [] ≡ ("b:1", urgent) ∷ []
unfolding forwards uav.Runtime.Peers.get_peer Map.get
forwarded = refl

send_round-forwards_example :
    (items : List QueueItem) × (n' : Node) × (send_round answers 3 sender ≡ some n')
    × Drains full items n'.sq
    × (addressed n'.transmitted
        ≡ forwards sender.out.pm (map (λ x. x.msg) items) (addressed sender.transmitted))
unfolding new_node
send_round-forwards_example = send_round-forwards answers 3 sender full-IsQueue (omega arith)

-- The last event first.
abbrev events : List Event
events =
    arriving (record zero_message { from = 2; seq = 1 }) 50
    ∷ turn_of_send_loop
    ∷ broadcasting 20 routine
    ∷ sending 10 2 urgent
    ∷ peer_added 2 "b:1"
    ∷ []

history-Balance_example :
    (n : Node) × (history answers 1 2 events ≡ some n) × Balance (arrivals events) [] n
history-Balance_example = history-Balance answers 1 2 events (omega arith)

abbrev one_item : SendQueue
one_item = record {
  h = record { msg = urgent; seq = 1; index = 0 } ∷ [];
  notified = false;
  counter = 1;
  cap = 2;
}

abbrev at_rest : Loop
at_rest = record { queue = new_send_queue 2; notifying = 0; draining = false }

abbrev about_to_notify : Loop
about_to_notify = record { queue = one_item; notifying = 1; draining = false }

abbrev has_notified : Loop
has_notified = record {
  queue = record one_item { notified = true };
  notifying = 0;
  draining = false;
}

has_notified-Reachable : Reachable 2 has_notified
unfolding insert notify new_send_queue
has_notified-Reachable =
    stepped about_to_notify has_notified
      (stepped at_rest about_to_notify started (inserted urgent false at_rest one_item refl))
      (notified about_to_notify 0 refl)

reachable-notified_example : has_notified.queue.notified ≡ true
reachable-notified_example =
    Reachable-notified 2 has_notified has_notified-Reachable refl refl (omega arith)

-- Whole numbers in place of float64.
abbrev whole : Floats
whole = record {
  Float = ℕ;
  zero_float = 0;
  of_uint = λ n. n;
  of_int = λ n. n;
  divide = λ x y. x / y;
  less = ltb;
  milli = 1;
  seconds = λ ms. ms / 1000;
  p50 = 50;
  p95 = 95;
  p99 = 99;
  scaled = λ p k. p * k / 100;
}
