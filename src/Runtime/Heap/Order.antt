-- ===== src/Runtime/Heap/Order.antt =====
-- The order of the heap: entries as numbers, and what Less and Swap do to them.
use uav.Base.{
  ℕ, ◌+◌, ◌*◌, ◌<◌, ◌≡◌, refl, ap, ◌∙◌, ◌==◌, ltb, some, arith, if◌then◌else◌, length, get_or, set,
  u64, length-set, get_elem?-get_or, get_or-set,
}
use uav.Message.{zero_message}
use uav.Runtime.Heap.{QueueItem, MsgHeap, before, less, swap}

abbrev pub zero_item : QueueItem
zero_item = record { msg = zero_message; seq = 0; index = 0 }

abbrev pub at : MsgHeap → ℕ → QueueItem
at h i = get_or h i zero_item

-- The place of an item in the order: by priority, then by the number of its insertion.
unfoldable pub rank : QueueItem → ℕ
rank x = x.msg.priority * u64 + x.seq

abbrev pub key : MsgHeap → ℕ → ℕ
key h i = rank (at h i)

abbrev pub Small : MsgHeap → Type 0
Small h = (i : ℕ) → i < length h → (at h i).seq < u64

-- The index of each item is its place.
abbrev pub Indexed : MsgHeap → Type 0
Indexed h = (i : ℕ) → i < length h → (at h i).index ≡ i

pub before-rank : (x y : QueueItem) → x.seq < u64 → y.seq < u64 → before x y ≡ ltb (rank x) (rank y)
unfolding rank
before-rank x y h k = ground arith

-- The heap that Swap makes.
unfoldable pub swapped : MsgHeap → ℕ → ℕ → MsgHeap
swapped h i j = set (set h i (record (at h j) { index = i })) j (record (at h i) { index = j })

module _ (h : MsgHeap) (i j : ℕ) (hi : i < length h) (hj : j < length h) where
  pub less-some : Small h → less h i j ≡ some (ltb (key h i) (key h j))
  unfolding less
  less-some s =
      rw (get_elem?-get_or h i zero_item hi, get_elem?-get_or h j zero_item hj)
        (ap some (before-rank (at h i) (at h j) (s i hi) (s j hj)))

  pub swap-some : swap h i j ≡ some (swapped h i j)
  unfolding swap swapped
  swap-some = rw (get_elem?-get_or h i zero_item hi, get_elem?-get_or h j zero_item hj) refl

  pub length-swapped : length (swapped h i j) ≡ length h
  unfolding swapped
  length-swapped = simp length-set

  pub at-swapped :
      (c : ℕ)
      → at (swapped h i j) c ≡ (
          if j == c
          then record (at h i) { index = j }
          else if i == c
          then record (at h j) { index = i }
          else at h c)
  unfolding swapped
  at-swapped c =
      get_or-set (set h i (record (at h j) { index = i })) j c _ zero_item (rw length-set hj)
      ∙ rw (get_or-set h i c (record (at h j) { index = i }) zero_item hi) refl

  pub key-swapped :
      (c : ℕ)
      → key (swapped h i j) c ≡ (if j == c then key h i else if i == c then key h j else key h c)
  unfolding rank
  key-swapped c = rw (at-swapped c) (ground arith)

  pub swapped-Small : Small h → Small (swapped h i j)
  swapped-Small s c hc =
      rw (at-swapped c) (ground (arith, s i hi, s j hj, s c (omega (arith, hc, length-swapped))))

  pub swapped-Indexed : Indexed h → Indexed (swapped h i j)
  swapped-Indexed s c hc =
      rw (at-swapped c) (ground (arith, s c (omega (arith, hc, length-swapped))))
