-- ===== src/Runtime/Heap.antt =====
-- node/runtime/router.go, msgHeap, and container/heap of the standard library on it.
-- `none` is a panic. A slice of item pointers is the list of the items; `Swap` writes their `index`.
pub mod Order
pub mod Tally
pub mod Sift
pub mod Sink
pub mod Calls
use uav.Base.{
  ℕ, zero, suc, ◌+◌, ◌-◌, ◌*◌, ◌/◌, ◌==◌, ltb, leb, not, ◌&&◌, ◌||◌, Bool, true, false, Option,
  none, some, List, [], ◌∷◌, ◌++◌, if◌then◌else◌, ◌>>=◌, length, get_elem?, get_or, set, take, u64,
}
use uav.Message.{Message, zero_message}

-- queueItem.
pub record QueueItem : Type 0 where
  pub msg : Message
  pub seq : ℕ
  pub index : ℕ

abbrev pub MsgHeap : Type 0
MsgHeap = List QueueItem

-- The comparison of Less.
abbrev pub before : QueueItem → QueueItem → Bool
before x y =
    if not (x.msg.priority == y.msg.priority)
    then ltb x.msg.priority y.msg.priority
    else ltb x.seq y.seq

-- Less.
unfoldable pub less : MsgHeap → ℕ → ℕ → Option Bool
less h i j = do x ← get_elem? h i; y ← get_elem? h j; some (before x y)

-- Swap.
unfoldable pub swap : MsgHeap → ℕ → ℕ → Option MsgHeap
swap h i j = do
  x ← get_elem? h i
  y ← get_elem? h j
  some (set (set h i (record y { index = i })) j (record x { index = j }))

-- Push of msgHeap.
unfoldable pub push_item : QueueItem → MsgHeap → MsgHeap
push_item x h = h ++ record x { index = length h } ∷ []

-- Pop of msgHeap.
unfoldable pub pop_item : MsgHeap → Option (QueueItem × MsgHeap)
pop_item h = do let last = length h - 1; item ← get_elem? h last; some (item, take last h)

abbrev pub parent : ℕ → ℕ
parent j = (j - 1) / 2

-- up of container/heap; fuel above j is enough.
unfoldable pub up_loop : ℕ → MsgHeap → ℕ → Option MsgHeap
unfolding less swap
up_loop zero h j = none
up_loop (suc k) h j =
    let i = parent j in
    let rise = swap h i j >>= λ h'. up_loop k h' i in
    let step = less h j i >>= λ smaller. if not smaller then some h else rise in
    if i == j then some h else step

-- The child of i that down compares: the right one if it is there and less than the left one.
unfoldable pub child : MsgHeap → ℕ → ℕ → Option ℕ
unfolding less
child h i n =
    let j1 = 2 * i + 1 in
    let j2 = j1 + 1 in
    let right = less h j2 j1 >>= λ smaller. some (if smaller then j2 else j1) in
    if ltb j2 n then right else some j1

-- The loop of down, with the index at which it stops; fuel above n is enough.
unfoldable pub down_loop : ℕ → MsgHeap → ℕ → ℕ → Option (MsgHeap × ℕ)
unfolding child less swap
down_loop zero h i n = none
down_loop (suc k) h i n =
    let sink = λ (j : ℕ). swap h i j >>= λ h'. down_loop k h' j n in
    let step =
      child h i n >>= λ j. less h j i >>= λ smaller. if not smaller then some (h, i) else sink j in
    if leb n (2 * i + 1) then some (h, i) else step

-- heap.Push.
unfoldable pub heap_push : QueueItem → MsgHeap → Option MsgHeap
unfolding push_item up_loop
heap_push x h = up_loop (length h + 1) (push_item x h) (length (push_item x h) - 1)

-- heap.Pop.
unfoldable pub heap_pop : MsgHeap → Option (QueueItem × MsgHeap)
unfolding pop_item down_loop swap
heap_pop h = do
  let n = length h - 1
  h' ← swap h 0 n
  (h'', i) ← down_loop (n + 1) h' 0 n
  pop_item h''

-- heap.Remove.
unfoldable pub heap_remove : MsgHeap → ℕ → Option (QueueItem × MsgHeap)
unfolding pop_item down_loop up_loop swap
heap_remove h i =
    let n = length h - 1 in
    let sift : Option MsgHeap = do
      h' ← swap h i n
      (h'', i') ← down_loop (n + 1) h' i n
      let risen = up_loop (i + 1) h'' i
      if not (ltb i i') then risen else some h''
    in (if not (n == i) then sift else some h) >>= pop_item
