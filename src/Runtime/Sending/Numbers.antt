-- ===== src/Runtime/Sending/Numbers.antt =====
-- The sequence numbers of the messages that a node sends.
use uav.Base.{
  ℕ, ◌+◌, ◌<◌, ◌≤◌, ◌≡◌, ap, ◌==◌, ==_iff, String, List, [], ◌∷◌, inl, inr, Bool-cases,
  Option-cases, if◌then◌else◌, nat_key, add32, u32, length, arith,
}
use uav.Message.{Message, broadcast_id}
use uav.Runtime.Peers.{get_peer, list_ids}
use uav.Runtime.Sending.{
  Outbound, new_outbound, add_peer, next_seq, push_to_peer, send_message, push_to_all, broadcast,
  timestamp_or,
}

-- No earlier message of the stream has this number or a higher one.
abbrev pub Above : Message → List Message → Type 0
Above m [] = Unit
Above m (e ∷ es) = (e.stream_id ≡ m.stream_id → e.seq < m.seq) × Above m es

-- The numbers of each stream rise, the last message standing first.
abbrev pub Rising : List Message → Type 0
Rising [] = Unit
Rising (m ∷ ms) = Above m ms × Rising ms

-- No message has a number above the counter of its stream.
abbrev pub Counted : (ℕ → ℕ) → List Message → Type 0
Counted counters [] = Unit
Counted counters (m ∷ ms) = (m.seq ≤ counters m.stream_id) × Counted counters ms

pub record Numbered (o : Outbound) : Type 0 where
  pub bounded : (stream : ℕ) → o.counters stream ≤ length o.pushed
  pub counted : Counted o.counters o.pushed
  pub rising : Rising o.pushed

Counted-Above :
    (m : Message) (counters : ℕ → ℕ) (ms : List Message)
    → counters m.stream_id < m.seq
    → Counted counters ms
    → Above m ms
Counted-Above m counters [] h c = c
Counted-Above m counters (e ∷ es) h (x, c) =
    ((λ same. omega (arith, h, x, ap counters same)), Counted-Above m counters es h c)

Counted-raise :
    (stream seq : ℕ) (counters : ℕ → ℕ) (ms : List Message)
    → counters stream ≤ seq
    → Counted counters ms
    → Counted (λ s. if stream == s then seq else counters s) ms
Counted-raise stream seq counters [] h c = c
Counted-raise stream seq counters (e ∷ es) h (x, c) = (
  elim (Bool-cases (stream == e.stream_id)) [
    | inl t ↦ rw t (omega (arith, h, x, ap counters ((==_iff stream e.stream_id).0 t)))
    | inr f ↦ rw f x
  ],
  Counted-raise stream seq counters es h c,
)

push_to_peer-Numbered :
    (peer : ℕ) (m : Message) (o : Outbound)
    → length (push_to_peer peer m o).pushed < u32
    → (length o.pushed < u32 → Numbered o)
    → Numbered (push_to_peer peer m o)
unfolding push_to_peer next_seq
push_to_peer-Numbered peer m o small n =
    let before = n (omega (arith, small)) in
    let seq = add32 (o.counters m.stream_id) 1 in
    let next : seq ≡ o.counters m.stream_id + 1 =
      omega (arith, before.bounded m.stream_id, small) in
    record {
      bounded = λ s. ground (arith, next, before.bounded s, before.bounded m.stream_id);
      counted = (
        ground arith,
        Counted-raise m.stream_id seq o.counters o.pushed (omega (arith, next)) before.counted,
      );
      rising = (
        Counted-Above (record m { to = peer; seq = seq }) o.counters o.pushed (omega (arith, next))
            before.counted,
        before.rising,
      );
    }

-- The registration of a peer, Send and Broadcast.
pub data Call : Type 0 where
  registered : ℕ → String → Call
  sent : ℕ → ℕ → Message → Call
  broadcasted : ℕ → Message → Call

-- A node after these calls, the last one first.
unfoldable pub after : ℕ → List Call → Outbound
after id [] = new_outbound id
after id (registered peer addr ∷ earlier) = (add_peer peer addr (after id earlier)).1
after id (sent millis peer m ∷ earlier) = (send_message millis peer m (after id earlier)).1
after id (broadcasted millis m ∷ earlier) = broadcast millis m (after id earlier)

abbrev pub Sound : Outbound → Type 0
Sound o = length o.pushed < u32 → Numbered o

push_to_peer-Sound :
    (peer : ℕ) (m : Message) (o : Outbound) → Sound o → Sound (push_to_peer peer m o)
push_to_peer-Sound peer m o n small = push_to_peer-Numbered peer m o small n

push_to_all-Sound :
    (peers : List ℕ) (m : Message) (o : Outbound) → Sound o → Sound (push_to_all peers m o)
unfolding push_to_all
push_to_all-Sound [] m o n = n
push_to_all-Sound (peer ∷ rest) m o n =
    push_to_all-Sound rest m (push_to_peer peer m o) (push_to_peer-Sound peer m o n)

send_message-Sound :
    (millis peer : ℕ) (m : Message) (o : Outbound)
    → Sound o
    → Sound (send_message millis peer m o).1
unfolding send_message
send_message-Sound millis peer m o n = elim (Option-cases (get_peer peer o.pm)) [
  | inl e ↦ rw (send_message, e) n
  | inr (p, e) ↦
      rw (send_message, e)
        (push_to_peer-Sound peer (record m { from = o.id; timestamp = timestamp_or millis m }) o n)
]

broadcast-Sound : (millis : ℕ) (m : Message) (o : Outbound) → Sound o → Sound (broadcast millis m o)
unfolding broadcast
broadcast-Sound millis m o n =
    push_to_all-Sound (list_ids o.pm)
      (record m { from = o.id; to = broadcast_id; timestamp = timestamp_or millis m }) o n

after-Sound : (id : ℕ) (calls : List Call) → Sound (after id calls)
unfolding after new_outbound add_peer
after-Sound id [] small = record {
  bounded = λ s. omega arith;
  counted = record {};
  rising = record {};
}
after-Sound id (registered peer addr ∷ earlier) small =
    let n = after-Sound id earlier small in
    record { bounded = n.bounded; counted = n.counted; rising = n.rising }
after-Sound id (sent millis peer m ∷ earlier) small =
    send_message-Sound millis peer m (after id earlier) (after-Sound id earlier) small
after-Sound id (broadcasted millis m ∷ earlier) small =
    let o = after id earlier in broadcast-Sound millis m o (after-Sound id earlier) small

-- Whatever a node sends and broadcasts, one call after the other, each message has a higher number
-- than all earlier ones of its stream, as long as fewer than 2 ^ 32 messages were pushed.
pub after-Rising :
    (id : ℕ) (calls : List Call)
    → length (after id calls).pushed < u32
    → Rising (after id calls).pushed
after-Rising id calls small = (after-Sound id calls small).rising
