-- ===== src/Runtime/SendQueue/Drain.antt =====
-- Pop takes the most urgent message, the oldest one of them; draining yields all in this order.
use uav.Base.{ℕ, ◌<◌, ◌≡◌, refl, sym, ◌==◌, Bool, false, none, some, List, [], ◌∷◌, arith, length}
use uav.Message.{Message}
use uav.Runtime.Heap.{QueueItem, MsgHeap, before}
use uav.Runtime.Heap.Tally.{tally}
use uav.Runtime.Heap.Calls.{Takes, heap_pop-Takes}
use uav.Runtime.SendQueue.{SendQueue, pop}
use uav.Runtime.SendQueue.Contents.{
  IsQueue, Takes-Small, IsFirst, least-IsFirst, tally-none, none-tally,
}

pub pop-empty : (q : SendQueue) → length q.h ≡ 0 → pop q ≡ some (none, q)
unfolding pop
pop-empty q e = rw e refl

-- x is an item of q that no other comes before, and r is q without it.
pub record Pops (q : SendQueue) (x : QueueItem) (r : SendQueue) : Type 0 where
  pub popped : pop q ≡ some (some x.msg, r)
  pub valid : IsQueue r
  pub first : IsFirst x q.h
  pub takes : Takes q.h x r.h

pub pop-IsQueue :
    (q : SendQueue) → IsQueue q → 0 < length q.h → (x : QueueItem) × (r : SendQueue) × Pops q x r
unfolding pop
pop-IsQueue q v pos =
    let (x, h, e, t, least) = heap_pop-Takes q.h v.heap pos in
    let small = Takes-Small q.h x h t v.heap.small in
    let test : (length q.h == 0) ≡ false = ground arith in
    (
      x,
      record q { h = h },
      record {
        popped = rw (test, e) refl;
        valid = record {
          heap = t.valid;
          within = omega (arith, t.size, v.within);
          room = v.room;
          counts = v.counts;
        };
        first = least-IsFirst x q.h small v.heap.small least;
        takes = t;
      },
    )

-- No item stands before an earlier one of the list.
pub data InOrder : List QueueItem → Type 0 where
  in_order_none : InOrder []
  in_order_next :
      (x : QueueItem) (rest : List QueueItem) → IsFirst x rest → InOrder rest → InOrder (x ∷ rest)

-- The items in the order of their going.
pub record Drains (q : SendQueue) (items : List QueueItem) (r : SendQueue) : Type 0 where
  pub in_order : InOrder items
  pub same : (p : Message → ℕ → Bool) → tally p items ≡ tally p q.h
  pub empty : length r.h ≡ 0
  pub valid : IsQueue r

tally_empty : (p : Message → ℕ → Bool) (h : MsgHeap) → length h ≡ 0 → tally p h ≡ 0
unfolding tally
tally_empty p [] e = refl
tally_empty p (x ∷ h) e = absurd (omega arith)

-- The item that went first comes before all that went later.
stays-IsFirst :
    (x : QueueItem) (q q' : SendQueue) (items : List QueueItem) {r : SendQueue}
    → Pops q x q'
    → Drains q' items r
    → IsFirst x items
stays-IsFirst x q q' items p d i b =
    let earlier = λ (m : Message) (seq : ℕ). before (record { msg = m; seq = seq; index = 0 }) x in
    let none_queued : tally earlier q.h ≡ 0 = tally-none earlier q.h p.first in
    let none_left : tally earlier items ≡ 0 =
      omega (arith, none_queued, p.takes.same earlier, d.same earlier) in
    none-tally earlier items i none_left b

pub empty-Drains : (q : SendQueue) → IsQueue q → length q.h ≡ 0 → Drains q [] q
unfolding tally
empty-Drains q v empty = record {
  in_order = in_order_none;
  same = λ p. sym (tally_empty p q.h empty);
  empty = empty;
  valid = v;
}

pub next-Drains :
    (x : QueueItem) (q q' : SendQueue) (items : List QueueItem) (r : SendQueue)
    → Pops q x q'
    → Drains q' items r
    → Drains q (x ∷ items) r
unfolding tally
next-Drains x q q' items r p d = record {
  in_order = in_order_next x items (stays-IsFirst x q q' items p d) d.in_order;
  same = λ p'. omega (arith, d.same p', p.takes.same p');
  empty = d.empty;
  valid = d.valid;
}
