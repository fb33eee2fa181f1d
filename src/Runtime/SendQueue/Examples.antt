-- ===== src/Runtime/SendQueue/Examples.antt =====
-- A queue that the examples start from.
use uav.Base.{zero, suc, refl, true, [], ◌∷◌, arith}
use uav.Message.{Message, zero_message}
use uav.Runtime.Heap.Order.{rank, Small, Indexed}
use uav.Runtime.Heap.Sift.{Ordered}
use uav.Runtime.SendQueue.{SendQueue}
use uav.Runtime.SendQueue.Contents.{IsQueue}

abbrev pub urgent : Message
urgent = record zero_message { priority = 0; to = 2 }

abbrev pub routine : Message
routine = record zero_message { priority = 2; to = 3 }

abbrev pub debug : Message
debug = record zero_message { priority = 3; to = 4 }

-- A full queue: the routine message was pushed first.
abbrev pub full : SendQueue
full = record {
  h =
      record { msg = urgent; seq = 2; index = 0 }
      ∷ record { msg = routine; seq = 1; index = 1 }
      ∷ [];
  notified = true;
  counter = 2;
  cap = 2;
}

full-Small : Small full.h
full-Small zero b = omega arith
full-Small (suc zero) b = omega arith
full-Small (suc (suc i)) b = absurd (omega arith)

full-Indexed : Indexed full.h
full-Indexed zero b = refl
full-Indexed (suc zero) b = refl
full-Indexed (suc (suc i)) b = absurd (omega arith)

full-Ordered : Ordered 2 full.h
unfolding rank
full-Ordered zero a b = absurd (omega arith)
full-Ordered (suc zero) a b = omega arith
full-Ordered (suc (suc c)) a b = absurd (omega arith)

pub full-IsQueue : IsQueue full
full-IsQueue = record {
  heap = record { small = full-Small; indexed = full-Indexed; ordered = full-Ordered };
  within = omega arith;
  room = omega arith;
  counts = omega arith;
}
