-- ===== src/Runtime/Heap/Tally.antt =====
-- How often the heap holds a message, whatever the place.
use uav.Base.{
  ℕ, zero, suc, ◌+◌, ◌<◌, ◌≤◌, ◌≡◌, refl, ◌∙◌, Bool, [], ◌∷◌, ◌++◌, arith, if◌then◌else◌, length,
  set, length-set, get_or-set,
}
use uav.Message.{Message}
use uav.Runtime.Heap.{QueueItem, MsgHeap}
use uav.Runtime.Heap.Order.{at, zero_item, swapped, length-swapped, at-swapped}

-- 1 for an item whose message and number pass the test, and 0 for any other.
abbrev pub weight : (Message → ℕ → Bool) → QueueItem → ℕ
weight p x = if p x.msg x.seq then 1 else 0

unfoldable pub tally : (Message → ℕ → Bool) → MsgHeap → ℕ
tally p [] = 0
tally p (x ∷ h) = weight p x + tally p h

pub tally-append :
    (p : Message → ℕ → Bool) (h k : MsgHeap) → tally p (h ++ k) ≡ tally p h + tally p k
unfolding tally
tally-append p [] k = omega arith
tally-append p (x ∷ h) k = omega (arith, tally-append p h k)

tally-set :
    (p : Message → ℕ → Bool) (h : MsgHeap) (i : ℕ) (x : QueueItem)
    → i < length h
    → tally p (set h i x) + weight p (at h i) ≡ tally p h + weight p x
unfolding tally
tally-set p [] i x b = absurd (omega arith)
tally-set p (y ∷ h) zero x b = omega arith
tally-set p (y ∷ h) (suc i) x b = omega (arith, tally-set p h i x)

module _ (h : MsgHeap) (i j : ℕ) (hi : i < length h) (hj : j < length h) where
  tally-swapped : (p : Message → ℕ → Bool) → tally p (swapped h i j) ≡ tally p h
  unfolding swapped
  tally-swapped p =
      let x = record (at h j) { index = i } in
      let y = record (at h i) { index = j } in
      let first = tally-set p h i x hi in
      let second = tally-set p (set h i x) j y (rw length-set hj) in
      let there : weight p (at (set h i x) j) ≡ weight p (at h j) =
        rw (get_or-set h i j x zero_item hi) (ground arith) in
      omega (arith, first, second, there)

-- r holds the items of h, those behind the first n where they stood.
pub record Kept (n : ℕ) (h r : MsgHeap) : Type 0 where
  pub same : (p : Message → ℕ → Bool) → tally p r ≡ tally p h
  pub size : length r ≡ length h
  pub behind : (c : ℕ) → n ≤ c → at r c ≡ at h c

pub Kept-refl : (n : ℕ) (h : MsgHeap) → Kept n h h
Kept-refl n h = record { same = λ p. refl; size = refl; behind = λ c b. refl }

pub Kept-trans : {n : ℕ} {h k r : MsgHeap} → Kept n h k → Kept n k r → Kept n h r
Kept-trans a b = record {
  same = λ p. b.same p ∙ a.same p;
  size = b.size ∙ a.size;
  behind = λ c l. b.behind c l ∙ a.behind c l;
}

pub Kept-swapped :
    (n : ℕ) (h : MsgHeap) (i j : ℕ) (hi : i < length h) (hj : j < length h)
    → i < n
    → j < n
    → Kept n h (swapped h i j)
Kept-swapped n h i j hi hj bi bj = record {
  same = tally-swapped h i j hi hj;
  size = length-swapped h i j hi hj;
  behind = λ c l. at-swapped h i j hi hj c ∙ ground arith;
}
