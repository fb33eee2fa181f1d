-- ===== src/Runtime/SendQueue.antt =====
-- node/runtime/router.go, SendQueue: the bounded outbound queue over the heap.
-- `none` is a panic. A lock is held for the whole of each method, so a call is one step.
pub mod Contents
pub mod Push
pub mod Drain
pub mod Examples
mod Tests
use uav.Base.{
  ℕ, zero, suc, ◌+◌, ◌==◌, ltb, leb, Bool, true, false, Option, none, some, List, [], ◌∷◌,
  if◌then◌else◌, ◌>>=◌, length, get_elem?, add64,
}
use uav.Message.{Message}
use uav.Runtime.Heap.{QueueItem, MsgHeap, heap_push, heap_pop, heap_remove}

-- `notified` says that notifyC, a channel of one place, holds its value. `counter` is a `uint64`.
pub record SendQueue : Type 0 where
  pub h : MsgHeap
  pub notified : Bool
  pub counter : ℕ
  pub cap : ℕ

-- NewSendQueue.
unfoldable pub new_send_queue : ℕ → SendQueue
new_send_queue capacity = record { h = []; notified = false; counter = 0; cap = capacity }

-- The loop of Push that looks for the item to evict.
unfoldable pub worst_from : QueueItem → List QueueItem → QueueItem
worst_from worst [] = worst
worst_from worst (it ∷ rest) =
    worst_from (if ltb worst.msg.priority it.msg.priority then it else worst) rest

-- The eviction of Push, and whether it took place: RecordQueueDrop counts it.
unfoldable pub make_room : ℕ → MsgHeap → Option (Bool × MsgHeap)
unfolding worst_from heap_remove
make_room cap h =
    let evict : Option (Bool × MsgHeap) = do
      first ← get_elem? h 0
      let worst = worst_from first h
      (x, rest) ← heap_remove h worst.index
      some (true, rest)
    in if leb cap (length h) then evict else some (false, h)

-- Push as far as it holds the lock.
unfoldable pub insert : Message → SendQueue → Option (Bool × SendQueue)
unfolding make_room heap_push
insert m q = do
  (evicted, h) ← make_room q.cap q.h
  let counter = add64 q.counter 1
  h' ← heap_push (record { msg = m; seq = counter; index = 0 }) h
  some (evicted, record q { h = h'; counter = counter })

-- The send on notifyC that does not block.
unfoldable pub notify : SendQueue → SendQueue
notify q = record q { notified = true }

-- Push.
unfoldable pub push : Message → SendQueue → Option (Bool × SendQueue)
unfolding insert notify
push m q = do (evicted, q') ← insert m q; some (evicted, notify q')

-- Pop; the first `none` inside is the result for an empty queue.
unfoldable pub pop : SendQueue → Option (Option Message × SendQueue)
unfolding heap_pop
pop q =
    let least : Option (Option Message × SendQueue) = do
      (item, h) ← heap_pop q.h
      some (some item.msg, record q { h = h })
    in if length q.h == 0 then some (none, q) else least

-- A receive from the channel of Wait: whether there is a value, which it takes.
unfoldable pub wait : SendQueue → Bool × SendQueue
wait q = (q.notified, record q { notified = false })
