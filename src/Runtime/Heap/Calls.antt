-- ===== src/Runtime/Heap/Calls.antt =====
-- heap.Push, heap.Pop and heap.Remove keep the heap and move exactly one item.
use uav.Base.{
  ℕ, zero, suc, ◌+◌, ◌-◌, ◌<◌, ◌≤◌, ◌≡◌, inl, inr, refl, sym, ap, ◌∙◌, ◌==◌, ==_iff, ltb, Bool,
  true, false, some, [], ◌∷◌, ◌++◌, arith, length, take, Bool-cases, u64, length-append,
  get_or-append, get_or-append_length, get_or-take, length-take, get_elem?-get_or,
}
use uav.Message.{Message}
use uav.Runtime.Heap.{
  QueueItem, MsgHeap, parent, push_item, pop_item, up_loop, heap_push, heap_pop, heap_remove,
}
use uav.Runtime.Heap.Tally.{tally, tally-append, weight, Kept, Kept-refl, Kept-swapped}
use uav.Runtime.Heap.Order.{
  zero_item, at, key, rank, Small, Indexed, swapped, swap-some, at-swapped, key-swapped,
}
use uav.Runtime.Heap.Sift.{IsSound, Ordered, Loose, settled, swapped-IsSound, up_loop-Sifted}
use uav.Runtime.Heap.Sink.{down_loop-Sunk}

pub record IsHeap (h : MsgHeap) : Type 0 where
  pub small : Small h
  pub indexed : Indexed h
  pub ordered : Ordered (length h) h

-- r is h with one item more.
pub record Adds (x : QueueItem) (h r : MsgHeap) : Type 0 where
  pub valid : IsHeap r
  pub same : (p : Message → ℕ → Bool) → tally p r ≡ weight p x + tally p h
  pub size : length r ≡ length h + 1

root_least_below :
    (k : ℕ) (h : MsgHeap) (i : ℕ) → IsHeap h → i < k → i < length h → key h 0 ≤ key h i
root_least_below zero h i v f b = absurd (omega arith)
root_least_below (suc k) h i v f b = ground (arith, v.ordered i, root_least_below k h (parent i) v)

-- The first item has the lowest rank.
pub root_least : (h : MsgHeap) (i : ℕ) → IsHeap h → i < length h → key h 0 ≤ key h i
root_least h i v b = root_least_below (suc i) h i v (omega arith) b

module _ (x : QueueItem) (h : MsgHeap) where
  length-push_item : length (push_item x h) ≡ length h + 1
  unfolding push_item
  length-push_item = length-append h (record x { index = length h } ∷ [])

  at-push_item_old : (i : ℕ) → i < length h → at (push_item x h) i ≡ at h i
  unfolding push_item
  at-push_item_old i b = get_or-append h (record x { index = length h } ∷ []) i zero_item b

  at-push_item_new : at (push_item x h) (length h) ≡ record x { index = length h }
  unfolding push_item
  at-push_item_new = get_or-append_length h (record x { index = length h }) zero_item

  tally-push_item : (p : Message → ℕ → Bool) → tally p (push_item x h) ≡ weight p x + tally p h
  unfolding push_item tally
  tally-push_item p = omega (arith, tally-append p h (record x { index = length h } ∷ []))

  push_item-IsSound : x.seq < u64 → IsHeap h → IsSound (length h + 1) (push_item x h)
  push_item-IsSound s v = record {
    fits = omega (arith, length-push_item);
    small = λ i b.
        ground (arith, s, b, length-push_item, at-push_item_old i, at-push_item_new, v.small i);
    indexed = λ i b.
        ground (arith, b, length-push_item, at-push_item_old i, at-push_item_new, v.indexed i);
  }

  push_item-Loose : IsHeap h → Loose (length h + 1) (push_item x h) (length h)
  push_item-Loose v = record {
    edges = λ c p q r t. ground (
      arith,
      v.ordered c,
      ap rank (at-push_item_old c (omega arith)),
      ap rank (at-push_item_old (parent c) (omega arith)),
    );
    bridged = λ c p q r t. omega (arith, p, q, r, t);
  }

-- Push adds the item.
pub heap_push-Adds :
    (x : QueueItem) (h : MsgHeap)
    → x.seq < u64
    → IsHeap h
    → (r : MsgHeap) × (heap_push x h ≡ some r) × Adds x h r
unfolding heap_push
heap_push-Adds x h s v =
    let size = length-push_item x h in
    let last : length (push_item x h) - 1 ≡ length h = omega (arith, size) in
    let (r, e, q) =
      up_loop-Sifted (length h + 1) (length h + 1) (push_item x h) (length h) (omega arith)
        (omega arith) (push_item-IsSound x h s v) (push_item-Loose x h v)
        (λ c a b d. omega (arith, a, b, d)) in
    (
      r,
      ap (up_loop (length h + 1) (push_item x h)) last ∙ e,
      record {
        valid = record {
          small = q.sound.small;
          indexed = q.sound.indexed;
          ordered = λ c a b. q.ordered c a (omega (arith, b, q.kept.size, size));
        };
        same = λ p. q.kept.same p ∙ tally-push_item x h p;
        size = q.kept.size ∙ size;
      },
    )

-- x is an item of h, and r is the rest.
pub record Takes (h : MsgHeap) (x : QueueItem) (r : MsgHeap) : Type 0 where
  pub valid : IsHeap r
  pub same : (p : Message → ℕ → Bool) → tally p h ≡ weight p x + tally p r
  pub size : length h ≡ length r + 1

take-append_last : (n : ℕ) (h : MsgHeap) → length h ≡ suc n → take n h ++ at h n ∷ [] ≡ h
take-append_last zero [] e = absurd (omega arith)
take-append_last zero (x ∷ []) e = refl
take-append_last zero (x ∷ y ∷ h) e = absurd (omega arith)
take-append_last (suc n) [] e = absurd (omega arith)
take-append_last (suc n) (x ∷ h) e = ap (◌∷◌ x) (take-append_last n h (omega arith))

-- The item behind a heap that fills all but the last place.
module _ (n : ℕ) (h k : MsgHeap) (s : IsSound n k) (o : Ordered n k) (size : length k ≡ suc n)
    (kept : Kept n h k) where
  pop_item-some : pop_item k ≡ some (at h n, take n k)
  unfolding pop_item
  pop_item-some =
      let last : length k - 1 ≡ n = omega (arith, size) in
      rw (last, get_elem?-get_or k n zero_item (omega (arith, size)), kept.behind n (omega arith))
        refl

  size_take : length (take n k) ≡ n
  size_take = omega (arith, length-take n k, size)

  take-Takes : Takes h (at h n) (take n k)
  unfolding tally
  take-Takes =
      let kept_at = λ (i : ℕ) (b : i < n). get_or-take n k i zero_item b in
      record {
        valid = record {
          small = λ i b.
              rw (kept_at i (omega (arith, b, size_take)))
                (s.small i (omega (arith, b, size_take, size)));
          indexed = λ i b.
              rw (kept_at i (omega (arith, b, size_take)))
                (s.indexed i (omega (arith, b, size_take, size)));
          ordered = λ c a b.
              rw
                (
                  kept_at c (omega (arith, b, size_take)),
                  kept_at (parent c) (omega (arith, b, size_take)),
                )
                (o c a (omega (arith, b, size_take)));
        };
        same = λ p. omega (
          arith,
          kept.same p,
          tally-append p (take n k) (at k n ∷ []),
          ap (tally p) (take-append_last n k size),
          ap (weight p) (kept.behind n (omega arith)),
        );
        size = omega (arith, size_take, size, kept.size);
      }

-- Exchanging item i with the last one leaves only the edges at i in doubt.
module _ (h : MsgHeap) (n i : ℕ) (size : length h ≡ suc n) (v : IsHeap h) (hi : i < length h) where
  hn : n < length h
  hn = omega (arith, size)

  front-IsSound : IsSound n (swapped h i n)
  front-IsSound =
      swapped-IsSound n h i n hi hn
        (record { fits = omega (arith, size); small = v.small; indexed = v.indexed })

  front-Loose : i ≤ n → Loose n (swapped h i n) i
  front-Loose le =
      let k = key-swapped h i n hi hn in
      record {
        edges = λ c p q r t. ground (arith, k c, k (parent c), v.ordered c, size);
        bridged = λ c p q r t. ground (arith, k c, k (parent i), v.ordered c, v.ordered i, size);
      }

  whole : Kept (suc n) h (swapped h i n)
  whole = Kept-swapped (suc n) h i n hi hn (omega (arith, size, hi)) (omega arith)

  -- A heap of the first n items of the exchanged ones, popped.
  front-Takes :
      (k : MsgHeap) (s : IsSound n k) (o : Ordered n k)
      → Kept n (swapped h i n) k
      → (pop_item k ≡ some (record (at h i) { index = n }, take n k))
        × Takes h (record (at h i) { index = n }) (take n k)
  front-Takes k s o kept =
      let long : length k ≡ suc n = kept.size ∙ whole.size ∙ size in
      let t = take-Takes n (swapped h i n) k s o long kept in
      let last : at (swapped h i n) n ≡ record (at h i) { index = n } =
        at-swapped h i n hi hn n ∙ ground arith in
      (
        pop_item-some n (swapped h i n) k s o long kept ∙ ap (λ x. some (x, take n k)) last,
        record {
          valid = t.valid;
          same = λ p. omega (arith, t.same p, whole.same p, ap (weight p) last);
          size = sym whole.size ∙ t.size;
        },
      )

-- Pop takes the item that stands first, whose rank is the lowest.
pub heap_pop-Takes :
    (h : MsgHeap)
    → IsHeap h
    → 0 < length h
    → (x : QueueItem) × (r : MsgHeap) × (heap_pop h ≡ some (x, r))
      × Takes h x r
      × ((i : ℕ) → i < length h → rank x ≤ key h i)
unfolding heap_pop rank
heap_pop-Takes h v pos =
    let n = length h - 1 in
    let size : length h ≡ suc n = omega arith in
    let loose = front-Loose h n 0 size v pos (omega arith) in
    let (k, i', e, q) =
      down_loop-Sunk (n + 1) n (swapped h 0 n) 0 (omega arith) (omega arith)
        (front-IsSound h n 0 size v pos) loose in
    let ordered : Ordered n k = elim q.stopped [
      | inl (here, same, below) ↦
          rw same (settled n (swapped h 0 n) 0 loose below (λ p. absurd (omega arith)))
      | inr (further, o) ↦ o
    ] in
    let (popped, t) = front-Takes h n 0 size v pos k q.sound ordered q.kept in
    (
      record (at h 0) { index = n },
      take n k,
      rw (swap-some h 0 n pos (omega arith), e) popped,
      t,
      λ i b. root_least h i v b,
    )

-- Remove takes the item at i.
pub heap_remove-Takes :
    (h : MsgHeap) (i : ℕ)
    → IsHeap h
    → i < length h
    → (x : QueueItem) × (r : MsgHeap) × (heap_remove h i ≡ some (x, r))
      × Takes h x r
      × (x.msg ≡ (at h i).msg)
      × (x.seq ≡ (at h i).seq)
unfolding heap_remove
heap_remove-Takes h i v hi =
    let n = length h - 1 in
    let size : length h ≡ suc n = omega arith in
    elim (Bool-cases (n == i)) [
      | inl last ↦
          let at_end : n ≡ i = (==_iff n i).0 last in
          let s : IsSound n h = record {
            fits = omega arith;
            small = v.small;
            indexed = v.indexed;
          } in
          let o : Ordered n h = λ c a b. v.ordered c a (omega arith) in
          let kept = Kept-refl n h in
          (
            at h n,
            take n h,
            rw last (pop_item-some n h h s o size kept),
            take-Takes n h h s o size kept,
            ap (λ c. (at h c).msg) at_end,
            ap (λ c. (at h c).seq) at_end,
          )
      | inr inner ↦
          let lt : i < n = ground (arith, inner) in
          let loose = front-Loose h n i size v hi (omega arith) in
          let sound = front-IsSound h n i size v hi in
          let (k, i', e, q) =
            down_loop-Sunk (n + 1) n (swapped h i n) i (omega arith) (omega arith) sound loose in
          let swaps = swap-some h i n hi (omega arith) in
          elim q.stopped [
            | inr (further, ordered) ↦
                let test : ltb i i' ≡ true = ground arith in
                let (popped, t) = front-Takes h n i size v hi k q.sound ordered q.kept in
                (
                  record (at h i) { index = n },
                  take n k,
                  rw (inner, swaps, e, test) popped,
                  t,
                  refl,
                  refl,
                )
            | inl (here, same, below) ↦
                let test : ltb i i' ≡ false = ground arith in
                let (r, f, z) =
                  up_loop-Sifted (i + 1) n (swapped h i n) i (omega arith) lt sound loose below in
                let (popped, t) = front-Takes h n i size v hi r z.sound z.ordered z.kept in
                (
                  record (at h i) { index = n },
                  take n r,
                  rw (inner, swaps, e, test, same, f) popped,
                  t,
                  refl,
                  refl,
                )
          ]
    ]
