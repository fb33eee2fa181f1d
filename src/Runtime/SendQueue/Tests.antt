-- ===== src/Runtime/SendQueue/Tests.antt =====
-- Examples of the send queue.
use uav.Base.{◌<◌, ◌≡◌, ◌⊎◌, refl, Bool, true, false, some, [], ◌∷◌, length}
use uav.Runtime.Heap.{QueueItem, MsgHeap}
use uav.Runtime.SendQueue.{SendQueue, push}
use uav.Runtime.SendQueue.Push.{Pushes, Evicts, push-IsQueue}
use uav.Runtime.SendQueue.Examples.{urgent, debug, full, full-IsQueue}

-- Even a message that is less urgent than all of the queue takes the place of an older one.
debug_evicts :
    push debug full
    ≡ some (
      true,
      record full {
        h =
            record { msg = urgent; seq = 2; index = 0 }
            ∷ record { msg = debug; seq = 3; index = 1 }
            ∷ [];
        counter = 3;
      },
    )
unfolding push
debug_evicts = refl

push-IsQueue_example :
    (evicted : Bool) × (h : MsgHeap) × (r : SendQueue) × (push debug full ≡ some (evicted, r))
    × Pushes debug full h r
    × (((evicted ≡ false) × (2 < 2) × (h ≡ full.h))
        ⊎ ((evicted ≡ true) × (length full.h ≡ full.cap) × (x : QueueItem) × Evicts full.h x h))
push-IsQueue_example = push-IsQueue debug full full-IsQueue
