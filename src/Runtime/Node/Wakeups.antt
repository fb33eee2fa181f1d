-- ===== src/Runtime/Node/Wakeups.antt =====
-- node/runtime/node.go, sendLoop, and Push of node/runtime/router.go in threads of their own. Push
-- releases the lock before it notifies, so that anything may come between.
use uav.Base.{
  ℕ, suc, ◌<◌, ◌≡◌, ◌⊎◌, inl, inr, refl, sym, ap, ◌∙◌, ◌==◌, Bool, true, false, Option, none, some,
  Option-cases, Bool-cases, arith, length,
}
use uav.Message.{Message}
use uav.Runtime.Heap.{heap_pop}
use uav.Runtime.SendQueue.{SendQueue, new_send_queue, insert, notify, pop, wait}

-- `notifying` threads are about to notify; `draining` says that sendLoop is in its inner loop.
pub record Loop : Type 0 where
  pub queue : SendQueue
  pub notifying : ℕ
  pub draining : Bool

pub data Step : Loop → Loop → Type 0 where
  inserted :
      (m : Message) (evicted : Bool) (l : Loop) (q : SendQueue)
      → insert m l.queue ≡ some (evicted, q)
      → Step l (record l { queue = q; notifying = suc l.notifying })
  notified :
      (l : Loop) (k : ℕ)
      → l.notifying ≡ suc k
      → Step l (record l { queue = notify l.queue; notifying = k })
  woken :
      (l : Loop)
      → l.draining ≡ false
      → (wait l.queue).0 ≡ true
      → Step l (record l { queue = (wait l.queue).1; draining = true })
  popped :
      (l : Loop) (m : Message) (q : SendQueue)
      → l.draining ≡ true
      → pop l.queue ≡ some (some m, q)
      → Step l (record l { queue = q })
  found_empty :
      (l : Loop) (q : SendQueue)
      → l.draining ≡ true
      → pop l.queue ≡ some (none, q)
      → Step l (record l { queue = q; draining = false })

pub data Reachable (size : ℕ) : Loop → Type 0 where
  started : Reachable size (record { queue = new_send_queue size; notifying = 0; draining = false })
  stepped : (l l' : Loop) → Reachable size l → Step l l' → Reachable size l'

-- An empty queue, or something that will make the loop look at it.
abbrev Awake : Loop → Type 0
Awake l =
    (length l.queue.h ≡ 0) ⊎ ((l.draining ≡ true) ⊎ ((l.queue.notified ≡ true) ⊎ (0 < l.notifying)))

-- The length that Pop leaves when it finds no message.
abbrev left_over : Option (Option Message × SendQueue) → ℕ
left_over none = 0
left_over (some (none, q)) = length q.h
left_over (some (some m, q)) = 0

left_over-pop : (q : SendQueue) → left_over (pop q) ≡ 0
unfolding pop
left_over-pop q = elim (Bool-cases (length q.h == 0)) [
  | inl empty ↦ rw empty (ground (arith, empty))
  | inr full ↦ elim (Option-cases (heap_pop q.h)) [
    | inl panics ↦ rw (full, panics) refl
    | inr (r, e) ↦ rw (full, e) refl
  ]
]

pop-none : (q r : SendQueue) → pop q ≡ some (none, r) → length r.h ≡ 0
pop-none q r e = sym (ap left_over e) ∙ left_over-pop q

Step-Awake : (l l' : Loop) → Step l l' → Awake l → Awake l'
unfolding notify wait
Step-Awake l l' (inserted m evicted k q e) a = inr (inr (inr (omega arith)))
Step-Awake l l' (notified i k e) a = inr (inr (inl refl))
Step-Awake l l' (woken k idle value) a = inr (inl refl)
Step-Awake l l' (popped k m q busy e) a = inr (inl busy)
Step-Awake l l' (found_empty k q busy e) a = inl (pop-none k.queue q e)

Reachable-Awake : (size : ℕ) (l : Loop) → Reachable size l → Awake l
unfolding new_send_queue
Reachable-Awake size l started = inl refl
Reachable-Awake size l (stepped k l' r s) = Step-Awake k l' s (Reachable-Awake size k r)

-- No wake-up is lost, however the pushing threads and sendLoop interleave: whenever the loop is not
-- draining, no thread is about to notify and the queue holds a message, the channel holds the value
-- that wakes the loop.
pub Reachable-notified :
    (size : ℕ) (l : Loop)
    → Reachable size l
    → l.draining ≡ false
    → l.notifying ≡ 0
    → 0 < length l.queue.h
    → l.queue.notified ≡ true
Reachable-notified size l r idle quiet waiting = elim (Reachable-Awake size l r) [
  | inl empty ↦ absurd (omega arith)
  | inr (inl busy) ↦ absurd (ground (arith, busy, idle))
  | inr (inr (inl value)) ↦ value
  | inr (inr (inr pending)) ↦ absurd (omega arith)
]
