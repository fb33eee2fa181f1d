-- ===== src/Runtime/Node/Events.antt =====
-- node/runtime/node.go: a node from NewNode on, as the events of its API and of its two loops.
use uav.Base.{ℕ, Bool, Option, some, String, List, [], ◌∷◌, ◌>>=◌, nat_key}
use uav.Message.{Message}
use uav.Runtime.Node.{Node, new_node, node_add_peer, node_send, node_broadcast, receive, send_next}

-- The events of a node: the calls on it, a turn of sendLoop, and a message that arrives.
pub data Event : Type 0 where
  peer_added : (id : ℕ) (addr : String) → Event
  sending : (millis peer : ℕ) (m : Message) → Event
  broadcasting : (millis : ℕ) (m : Message) → Event
  turn_of_send_loop : Event
  arriving : (m : Message) (now : ℕ) → Event

-- The messages that have arrived.
unfoldable pub arrivals : List Event → List Message
arrivals [] = []
arrivals (peer_added id addr ∷ earlier) = arrivals earlier
arrivals (sending millis peer m ∷ earlier) = arrivals earlier
arrivals (broadcasting millis m ∷ earlier) = arrivals earlier
arrivals (turn_of_send_loop ∷ earlier) = arrivals earlier
arrivals (arriving m now ∷ earlier) = m ∷ arrivals earlier

module _ (tr_send : ℕ → String → Message → Bool) where
  unfoldable pub step : Event → Node → Option Node
  unfolding node_add_peer node_send node_broadcast receive send_next
  step (peer_added id addr) n = some (node_add_peer id addr n).1
  step (sending millis peer m) n = node_send millis peer m n >>= λ sent. some sent.1
  step (broadcasting millis m) n = node_broadcast millis m n
  step turn_of_send_loop n = send_next tr_send n >>= λ turn. some turn.1
  step (arriving m now) n = some (receive m now n)

  -- A new node after these events, the last one first.
  unfoldable pub history : ℕ → ℕ → List Event → Option Node
  unfolding step
  history id size [] = some (new_node id size)
  history id size (event ∷ earlier) = history id size earlier >>= step event
