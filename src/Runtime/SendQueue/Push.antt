-- ===== src/Runtime/SendQueue/Push.antt =====
-- Push keeps the queue well formed, and evicts an item of the least urgent priority when it is full.
use uav.Base.{
  ℕ, zero, suc, ◌+◌, ◌<◌, ◌≤◌, ◌≡◌, ◌⊎◌, inl, inr, refl, sym, ap, ◌∙◌, ltb, leb, Bool, true, false,
  none, some, [], ◌∷◌, arith, length, get_elem?-get_or, add64, u64, Bool-cases,
}
use uav.Message.{Message}
use uav.Runtime.Heap.{QueueItem, MsgHeap}
use uav.Runtime.Heap.Order.{zero_item, at}
use uav.Runtime.Heap.Tally.{weight, tally}
use uav.Runtime.Heap.Calls.{IsHeap, Takes, heap_push-Adds, heap_remove-Takes}
use uav.Runtime.SendQueue.{SendQueue, new_send_queue, worst_from, make_room, push}
use uav.Runtime.SendQueue.Contents.{above, IsQueue, Numbered, tally-none, none-tally}

-- w is the first item or one of h, and no item of h is less urgent.
record Worst (first : QueueItem) (h : MsgHeap) (w : QueueItem) : Type 0 where
  found : (w ≡ first) ⊎ ((i : ℕ) × (i < length h) × (w ≡ at h i))
  first_within : first.msg.priority ≤ w.msg.priority
  within : (i : ℕ) → i < length h → (at h i).msg.priority ≤ w.msg.priority

module _ (first it : QueueItem) (rest : MsgHeap) (w : QueueItem) where
  within_cons :
      it.msg.priority ≤ w.msg.priority
      → ((i : ℕ) → i < length rest → (at rest i).msg.priority ≤ w.msg.priority)
      → (i : ℕ) → i < length (it ∷ rest)
      → (at (it ∷ rest) i).msg.priority ≤ w.msg.priority
  within_cons le all zero b = le
  within_cons le all (suc i) b = all i (omega arith)

  take_it : first.msg.priority ≤ it.msg.priority → Worst it rest w → Worst first (it ∷ rest) w
  take_it le v = record {
    found = elim v.found [
      | inl same ↦ inr (0, omega arith, same)
      | inr (i, b, same) ↦ inr (suc i, omega arith, same)
    ];
    first_within = omega (arith, le, v.first_within);
    within = within_cons v.first_within v.within;
  }

  keep_first : it.msg.priority ≤ first.msg.priority → Worst first rest w → Worst first (it ∷ rest) w
  keep_first le v = record {
    found = elim v.found [
      | inl same ↦ inl same
      | inr (i, b, same) ↦ inr (suc i, omega arith, same)
    ];
    first_within = v.first_within;
    within = within_cons (omega (arith, le, v.first_within)) v.within;
  }

worst_from-Worst : (first : QueueItem) (h : MsgHeap) → Worst first h (worst_from first h)
unfolding worst_from
worst_from-Worst first [] = record {
  found = inl refl;
  first_within = omega arith;
  within = λ i b. absurd (omega arith);
}
worst_from-Worst first (it ∷ rest) = elim (Bool-cases (ltb first.msg.priority it.msg.priority)) [
  | inl worse ↦
      rw worse (take_it first it rest _ (ground (arith, worse)) (worst_from-Worst it rest))
  | inr no_worse ↦
      rw no_worse
        (keep_first first it rest _ (ground (arith, no_worse)) (worst_from-Worst first rest))
]

-- In a heap the place of the worst item is its index.
worst_from-place :
    (h : MsgHeap)
    → IsHeap h
    → 0 < length h
    → let w = worst_from (at h 0) h in (w.index < length h) × (at h w.index ≡ w)
worst_from-place h v pos =
    let w = worst_from (at h 0) h in
    let placed : (i : ℕ) → i < length h → w ≡ at h i → (w.index < length h) × (at h w.index ≡ w) =
      λ i b same.
        let here : w.index ≡ i = ap (λ x. x.index) same ∙ v.indexed i b in
        (omega (arith, here), ap (at h) here ∙ sym same) in
    elim (worst_from-Worst (at h 0) h).found [
      | inl same ↦ placed 0 pos same
      | inr (i, b, same) ↦ placed i b same
    ]

-- x, an item of the queue that none is less urgent than, has been evicted from h, and r is left.
pub record Evicts (h : MsgHeap) (x : QueueItem) (r : MsgHeap) : Type 0 where
  pub takes : Takes h x r
  pub worst : (i : ℕ) → i < length h → (at h i).msg.priority ≤ x.msg.priority

make_room-Evicts :
    (cap : ℕ) (h : MsgHeap)
    → IsHeap h
    → cap ≤ length h
    → 0 < length h
    → (x : QueueItem) × (r : MsgHeap) × (make_room cap h ≡ some (true, r)) × Evicts h x r
unfolding make_room
make_room-Evicts cap h v full pos =
    let (inside, place) = worst_from-place h v pos in
    let w = worst_from (at h 0) h in
    let (x, r, e, t, same, numbered) = heap_remove-Takes h w.index v inside in
    let test : leb cap (length h) ≡ true = ground arith in
    let worst : x.msg ≡ w.msg = same ∙ ap (λ y. y.msg) place in
    (
      x,
      r,
      rw (test, get_elem?-get_or h 0 zero_item pos, e) refl,
      record {
        takes = t;
        worst = λ i b.
            omega (arith, (worst_from-Worst (at h 0) h).within i b, ap (λ m. m.priority) worst);
      },
    )

make_room-rests : (cap : ℕ) (h : MsgHeap) → length h < cap → make_room cap h ≡ some (false, h)
unfolding make_room
make_room-rests cap h b = let test : leb cap (length h) ≡ false = ground arith in rw test refl

-- The message with the number that Push gives it.
abbrev pub pushed : Message → SendQueue → QueueItem
pushed m q = record { msg = m; seq = add64 q.counter 1; index = 0 }

-- What Push leaves of the heap that it adds to.
module _ (m : Message) (q : SendQueue) (h : MsgHeap) where
  pub record Pushes (r : SendQueue) : Type 0 where
    pub valid : IsQueue r
    pub same : (p : Message → ℕ → Bool) → tally p r.h ≡ weight p (pushed m q) + tally p h
    pub size : length r.h ≡ length h + 1
    pub notified : r.notified ≡ true
    pub counter : r.counter ≡ add64 q.counter 1
    pub cap : r.cap ≡ q.cap

  push-Pushes :
      (evicted : Bool)
      → make_room q.cap q.h ≡ some (evicted, h)
      → IsHeap h
      → length h < q.cap
      → (r : SendQueue) × (push m q ≡ some (evicted, r)) × Pushes r
  unfolding push
  push-Pushes evicted made v b =
      let (h', f, a) = heap_push-Adds (pushed m q) h (omega arith) v in
      let r : SendQueue = record q { h = h'; counter = add64 q.counter 1; notified = true } in
      (
        r,
        rw (made, f) refl,
        record {
          valid = record {
            heap = a.valid;
            within = omega (arith, a.size);
            room = omega arith;
            counts = omega arith;
          };
          same = a.same;
          size = a.size;
          notified = refl;
          counter = refl;
          cap = refl;
        },
      )

-- Push on a well-formed queue never panics and leaves a well-formed queue, notified, that holds the
-- message with the next number besides what was there. Below the capacity
-- nothing else changes. At the capacity exactly one item has gone, and none that was there is less
-- urgent than it.
pub push-IsQueue :
    (m : Message) (q : SendQueue)
    → IsQueue q
    → (evicted : Bool) × (h : MsgHeap) × (r : SendQueue) × (push m q ≡ some (evicted, r))
      × Pushes m q h r
      × (((evicted ≡ false) × (length q.h < q.cap) × (h ≡ q.h))
          ⊎ ((evicted ≡ true) × (length q.h ≡ q.cap) × (x : QueueItem) × Evicts q.h x h))
push-IsQueue m q v = elim (Bool-cases (leb q.cap (length q.h))) [
  | inl full ↦
      let (x, h, e, t) =
        make_room-Evicts q.cap q.h v.heap (ground (arith, full)) (ground (arith, full, v.room)) in
      let (r, pushes, p) =
        push-Pushes m q h true e t.takes.valid (omega (arith, t.takes.size, v.within)) in
      (true, h, r, pushes, p, inr (refl, ground (arith, full, v.within), x, t))
  | inr fits ↦
      let below : length q.h < q.cap = ground (arith, fits) in
      let (r, pushes, p) =
        push-Pushes m q q.h false (make_room-rests q.cap q.h below) v.heap below in
      (false, q.h, r, pushes, p, inl (refl, below, refl))
]

-- A queue made with capacity 0 panics at the first Push.
pub push-no_room : (m : Message) → push m (new_send_queue 0) ≡ none
unfolding push new_send_queue make_room
push-no_room m = refl

-- While the counter has not reached its last number, Push keeps the items numbered by it, and the
-- number of the new one is above all that stay.
pub push-Numbered :
    (m : Message) (q : SendQueue) (h : MsgHeap) (r : SendQueue)
    → Pushes m q h r
    → tally (above q.counter) h ≡ 0
    → q.counter + 1 < u64
    → Numbered r
push-Numbered m q h r p e counts =
    let next : add64 q.counter 1 ≡ q.counter + 1 = omega arith in
    let none_next =
      tally-none (above (q.counter + 1)) h
        (λ i b. ground (arith, none-tally (above q.counter) h i e b)) in
    rw (p.counter, next) (ground (arith, p.same (above (q.counter + 1)), none_next, next))
