-- ===== src/Runtime/Sending.antt =====
-- node/runtime/node.go, the outbound half of Node: what Send and Broadcast push to the send queue.
pub mod Numbers
pub mod Interleaving
mod Tests
use uav.Base.{
  ℕ, ◌+◌, ◌==◌, Bool, true, false, Option, none, some, String, List, [], ◌∷◌, if◌then◌else◌,
  nat_key, add32,
}
use uav.Base.Map
use uav.Message.{Message, broadcast_id}
use uav.Runtime.Peers.{Peer, PeerManager, new_peer_manager, add, get_peer, list_ids}

-- The fields of Node that sending uses. `counters` is seqCounters by stream, `pushed` holds the
-- messages that were pushed to the queue, the last one first.
pub record Outbound : Type 0 where
  pub id : ℕ
  pub pm : PeerManager
  pub counters : ℕ → ℕ
  pub pushed : List Message

-- NewNode.
unfoldable pub new_outbound : ℕ → Outbound
new_outbound id = record { id = id; pm = new_peer_manager; counters = λ stream. 0; pushed = [] }

-- AddPeer.
unfoldable pub add_peer : ℕ → String → Outbound → Bool × Outbound
add_peer id addr o = let (ok, pm) = add id addr o.pm in (ok, record o { pm = pm })

-- nextSeq.
unfoldable pub next_seq : ℕ → Outbound → ℕ × Outbound
next_seq stream o =
    let seq = add32 (o.counters stream) 1 in
    (seq, record o { counters = λ s. if stream == s then seq else o.counters s })

-- The timestamp of a message: its own, or the milliseconds of the node's clock.
abbrev pub timestamp_or : ℕ → Message → ℕ
timestamp_or millis m = if m.timestamp == 0 then millis else m.timestamp

-- nextSeq and the fields of a message for a peer, as Send and the loop of Broadcast set them.
abbrev pub number_for : ℕ → Message → Outbound → Message × Outbound
number_for peer m o =
    let (seq, numbered) = next_seq m.stream_id o in (record m { to = peer; seq = seq }, numbered)

-- The call of Push.
abbrev pub push_message : Message → Outbound → Outbound
push_message m o = record o { pushed = m ∷ o.pushed }

-- A message numbered and pushed, where no other goroutine sends in between. Interleaving has the two
-- apart.
unfoldable pub push_to_peer : ℕ → Message → Outbound → Outbound
unfolding next_seq
push_to_peer peer m o = let (numbered, o') = number_for peer m o in push_message numbered o'

-- Send; `false` is the error for an unknown peer.
unfoldable pub send_message : ℕ → ℕ → Message → Outbound → Bool × Outbound
unfolding push_to_peer
send_message millis peer m o = elim (get_peer peer o.pm) [
  | none ↦ (false, o)
  | some p ↦
      (true, push_to_peer peer (record m { from = o.id; timestamp = timestamp_or millis m }) o)
]

-- The loop of Broadcast.
unfoldable pub push_to_all : List ℕ → Message → Outbound → Outbound
unfolding push_to_peer
push_to_all [] m o = o
push_to_all (peer ∷ rest) m o = push_to_all rest m (push_to_peer peer m o)

-- Broadcast.
unfoldable pub broadcast : ℕ → Message → Outbound → Outbound
unfolding push_to_all
broadcast millis m o =
    push_to_all (list_ids o.pm)
      (record m { from = o.id; to = broadcast_id; timestamp = timestamp_or millis m }) o
