-- ===== src/Runtime/SendQueue/Contents.antt =====
-- The well-formed queues, and what is said of all the items of a heap by a count.
use uav.Base.{
  ℕ, zero, suc, ◌-◌, ◌<◌, ◌≤◌, ◌≡◌, refl, ◌∙◌, ltb, Bool, false, [], ◌∷◌, arith, length, u64,
}
use uav.Message.{Message}
use uav.Runtime.Heap.{QueueItem, MsgHeap, before}
use uav.Runtime.Heap.Order.{at, key, rank, Small, before-rank}
use uav.Runtime.Heap.Tally.{tally}
use uav.Runtime.Heap.Calls.{IsHeap, Takes}
use uav.Runtime.SendQueue.{SendQueue, new_send_queue}

-- The number of an item is above c.
abbrev pub above : ℕ → Message → ℕ → Bool
above c m seq = ltb c seq

-- A queue between two calls: a heap within its capacity, and a counter that is a `uint64`.
pub record IsQueue (q : SendQueue) : Type 0 where
  pub heap : IsHeap q.h
  pub within : length q.h ≤ q.cap
  pub room : 0 < q.cap
  pub counts : q.counter < u64

-- No item passes the test.
pub tally-none :
    (p : Message → ℕ → Bool) (h : MsgHeap)
    → ((i : ℕ) → i < length h → p (at h i).msg (at h i).seq ≡ false)
    → tally p h ≡ 0
unfolding tally
tally-none p [] none_pass = refl
tally-none p (x ∷ h) none_pass =
    rw (none_pass 0 (omega arith))
      (omega (arith, tally-none p h (λ i b. none_pass (suc i) (omega arith))))

pub none-tally :
    (p : Message → ℕ → Bool) (h : MsgHeap) (i : ℕ)
    → tally p h ≡ 0
    → i < length h
    → p (at h i).msg (at h i).seq ≡ false
unfolding tally
none-tally p [] i e b = absurd (omega arith)
none-tally p (x ∷ h) zero e b = ground arith
none-tally p (x ∷ h) (suc i) e b = none-tally p h i (ground arith) (omega arith)

-- All items have been numbered by the counter.
abbrev pub Numbered : SendQueue → Type 0
Numbered q = tally (above q.counter) q.h ≡ 0

pub new_send_queue-IsQueue : (capacity : ℕ) → 0 < capacity → IsQueue (new_send_queue capacity)
unfolding new_send_queue
new_send_queue-IsQueue capacity room = record {
  heap = record {
    small = λ i b. absurd (omega arith);
    indexed = λ i b. absurd (omega arith);
    ordered = λ c a b. absurd (omega arith);
  };
  within = omega arith;
  room = room;
  counts = omega arith;
}

pub Takes-Small : (h : MsgHeap) (x : QueueItem) (r : MsgHeap) → Takes h x r → Small h → x.seq < u64
Takes-Small h x r t small =
    let none_above = tally-none (above (u64 - 1)) h (λ i b. ground (arith, small i b)) in
    ground (arith, none_above, t.same (above (u64 - 1)))

-- x does not come after any item of the heap.
abbrev pub IsFirst : QueueItem → MsgHeap → Type 0
IsFirst x h = (i : ℕ) → i < length h → before (at h i) x ≡ false

pub least-IsFirst :
    (x : QueueItem) (h : MsgHeap)
    → x.seq < u64
    → Small h
    → ((i : ℕ) → i < length h → rank x ≤ key h i)
    → IsFirst x h
least-IsFirst x h s small least i b =
    before-rank (at h i) x (small i b) s ∙ ground (arith, least i b)
