-- ===== src/Runtime/Sending/Interleaving.antt =====
-- Goroutines that send at the same time: Send and the loop of Broadcast hold no lock from nextSeq to Push.
use uav.Base.{
  ℕ, ◌+◌, ◌<◌, ◌≤◌, ◌≡◌, refl, ap, ◌==◌, ==_iff, ◌&&◌, String, List, [], ◌∷◌, ◌++◌, inl, inr,
  Bool-cases, if◌then◌else◌, add32, u32, length, length-append, arith,
}
use uav.Message.{Message}
use uav.Runtime.Sending.{Outbound, new_outbound, add_peer, next_seq, number_for, push_message}

-- The sending half of a node, with the messages that have their number and are still to be pushed.
pub record Sender : Type 0 where
  pub out : Outbound
  pub in_hand : List Message

-- AddPeer; a goroutine in Send or Broadcast takes a number; one of them, any one, goes on and pushes.
pub data Turn : Sender → Sender → Type 0 where
  registers :
      (id : ℕ) (addr : String) (s : Sender) → Turn s (record s { out = (add_peer id addr s.out).1 })
  numbers :
      (peer : ℕ) (m : Message) (s : Sender)
      → Turn s (record {
        out = (number_for peer m s.out).1;
        in_hand = (number_for peer m s.out).0 ∷ s.in_hand;
      })
  pushes :
      (m : Message) (front back : List Message) (out : Outbound)
      → Turn
          (record { out = out; in_hand = front ++ m ∷ back })
          (record { out = push_message m out; in_hand = front ++ back })

pub data Reach (id : ℕ) : Sender → Type 0 where
  started : Reach id (record { out = new_outbound id; in_hand = [] })
  next : {s t : Sender} → Reach id s → Turn s t → Reach id t

-- How many of the messages have this stream and this number.
unfoldable pub uses : ℕ → ℕ → List Message → ℕ
uses stream seq [] = 0
uses stream seq (m ∷ ms) =
    (if (m.stream_id == stream) && (m.seq == seq) then 1 else 0) + uses stream seq ms

uses-append :
    (stream seq : ℕ) (xs ys : List Message)
    → uses stream seq (xs ++ ys) ≡ uses stream seq xs + uses stream seq ys
unfolding uses
uses-append stream seq [] ys = omega arith
uses-append stream seq (m ∷ xs) ys = omega (arith, uses-append stream seq xs ys)

abbrev total : Sender → ℕ
total s = length s.in_hand + length s.out.pushed

abbrev used : ℕ → ℕ → Sender → ℕ
used stream seq s = uses stream seq s.in_hand + uses stream seq s.out.pushed

record Numbered (s : Sender) : Type 0 where
  pub bounded : (stream : ℕ) → s.out.counters stream ≤ total s
  pub ahead : (stream seq : ℕ) → s.out.counters stream < seq → used stream seq s ≡ 0
  pub once : (stream seq : ℕ) → used stream seq s ≤ 1

numbers-Numbered :
    (peer : ℕ) (m : Message) (s : Sender)
    → total s + 1 < u32
    → Numbered s
    → Numbered (record {
      out = (number_for peer m s.out).1;
      in_hand = (number_for peer m s.out).0 ∷ s.in_hand;
    })
unfolding next_seq uses
numbers-Numbered peer m s small n =
    let seq = add32 (s.out.counters m.stream_id) 1 in
    let new : seq ≡ s.out.counters m.stream_id + 1 = omega (arith, n.bounded m.stream_id, small) in
    record {
      bounded = λ stream. ground (arith, new, n.bounded stream, n.bounded m.stream_id);
      ahead = λ stream k above. elim (Bool-cases (m.stream_id == stream)) [
        | inl this ↦
            let counted = ap s.out.counters ((==_iff m.stream_id stream).0 this) in
            ground (arith, this, above, new, counted, n.ahead stream k)
        | inr other ↦ ground (arith, other, above, n.ahead stream k)
      ];
      once = λ stream k. elim (Bool-cases ((m.stream_id == stream) && (seq == k))) [
        | inl this ↦
            let same : m.stream_id ≡ stream =
              (==_iff m.stream_id stream).0 (ground (arith, this)) in
            let counted = ap s.out.counters same in
            ground (arith, this, new, counted, n.ahead stream k)
        | inr other ↦ ground (arith, other, n.once stream k)
      ];
    }

pushes-Numbered :
    (m : Message) (front back : List Message) (out : Outbound)
    → Numbered (record { out = out; in_hand = front ++ m ∷ back })
    → Numbered (record { out = push_message m out; in_hand = front ++ back })
unfolding uses
pushes-Numbered m front back out n =
    let longer = length-append front (m ∷ back) in
    let shorter = length-append front back in
    record {
      bounded = λ stream. omega (arith, n.bounded stream, longer, shorter);
      ahead = λ stream seq above. omega (
        arith,
        n.ahead stream seq above,
        uses-append stream seq front (m ∷ back),
        uses-append stream seq front back,
      );
      once = λ stream seq. omega (
        arith,
        n.once stream seq,
        uses-append stream seq front (m ∷ back),
        uses-append stream seq front back,
      );
    }

registers-Numbered :
    (id : ℕ) (addr : String) (s : Sender)
    → Numbered s
    → Numbered (record s { out = (add_peer id addr s.out).1 })
unfolding add_peer
registers-Numbered id addr s n = record { bounded = n.bounded; ahead = n.ahead; once = n.once }

Reach-Numbered : {id : ℕ} {s : Sender} → Reach id s → total s < u32 → Numbered s
unfolding new_outbound uses add_peer next_seq
Reach-Numbered started small = record {
  bounded = λ stream. omega arith;
  ahead = λ stream seq above. refl;
  once = λ stream seq. omega arith;
}
Reach-Numbered (next r (registers id addr s)) small =
    registers-Numbered id addr s (Reach-Numbered r small)
Reach-Numbered (next r (numbers peer m s)) small =
    numbers-Numbered peer m s (omega (arith, small)) (Reach-Numbered r (omega (arith, small)))
Reach-Numbered (next r (pushes m front back out)) small = pushes-Numbered m front back out (
    Reach-Numbered r
      (omega (arith, small, length-append front (m ∷ back), length-append front back)))

-- Whatever the goroutines of a node send and broadcast, and in whatever order they go on from nextSeq to
-- Push, no two messages of one stream that were pushed have the same number, as long as fewer than 2 ^ 32
-- messages have got one.
pub pushed-once :
    {id : ℕ} {s : Sender}
    → Reach id s
    → length s.in_hand + length s.out.pushed < u32
    → (stream seq : ℕ) → uses stream seq s.out.pushed ≤ 1
pushed-once r small stream seq = omega (arith, (Reach-Numbered r small).once stream seq)
