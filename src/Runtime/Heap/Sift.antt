-- ===== src/Runtime/Heap/Sift.antt =====
-- up and down of container/heap restore the order.
use uav.Base.{
  ℕ, zero, suc, ◌<◌, ◌≤◌, ◌≡◌, ◌≢◌, inl, inr, refl, ◌==◌, ltb, some, arith, length, Bool-cases,
}
use uav.Runtime.Heap.{MsgHeap, parent, up_loop}
use uav.Runtime.Heap.Tally.{Kept, Kept-refl, Kept-trans, Kept-swapped}
use uav.Runtime.Heap.Order.{
  key, Small, Indexed, less-some, swapped, swap-some, length-swapped, key-swapped, swapped-Small,
  swapped-Indexed,
}

-- What no swap undoes: the items, their numbers and their indices.
pub record IsSound (n : ℕ) (h : MsgHeap) : Type 0 where
  pub fits : n ≤ length h
  pub small : Small h
  pub indexed : Indexed h

-- The first n items are in heap order.
abbrev pub Ordered : ℕ → MsgHeap → Type 0
Ordered n h = (c : ℕ) → 0 < c → c < n → key h (parent c) ≤ key h c

-- Only the edges at i may be out of order.
pub record Loose (n : ℕ) (h : MsgHeap) (i : ℕ) : Type 0 where
  pub edges : (c : ℕ) → 0 < c → c < n → c ≢ i → parent c ≢ i → key h (parent c) ≤ key h c
  pub bridged : (c : ℕ) → 0 < c → c < n → parent c ≡ i → 0 < i → key h (parent i) ≤ key h c

abbrev pub Below : ℕ → MsgHeap → ℕ → Type 0
Below n h i = (c : ℕ) → 0 < c → c < n → parent c ≡ i → key h i ≤ key h c

pub settled :
    (n : ℕ) (h : MsgHeap) (i : ℕ)
    → Loose n h i
    → Below n h i
    → (0 < i → key h (parent i) ≤ key h i)
    → Ordered n h
settled n h i l b a c p q = ground (arith, l.edges c, b c, a)

pub swapped-IsSound :
    (n : ℕ) (h : MsgHeap) (i j : ℕ) (hi : i < length h) (hj : j < length h)
    → IsSound n h
    → IsSound n (swapped h i j)
swapped-IsSound n h i j hi hj s = record {
  fits = omega (arith, s.fits, length-swapped h i j hi hj);
  small = swapped-Small h i j hi hj s.small;
  indexed = swapped-Indexed h i j hi hj s.indexed;
}

module _ (n : ℕ) (h : MsgHeap) (j : ℕ) (pos : 0 < j) (hj : j < n) (s : IsSound n h)
    (l : Loose n h j) (b : Below n h j) (smaller : key h j < key h (parent j)) where
  in_reach : j < length h
  in_reach = omega (arith, hj, s.fits)

  above : parent j < length h
  above = omega (arith, hj, s.fits)

  rise-Loose : Loose n (swapped h (parent j) j) (parent j)
  rise-Loose =
      let k = key-swapped h (parent j) j above in_reach in
      record {
        edges = λ c p q r t. ground (arith, k c, k (parent c), l.edges c, l.bridged c);
        bridged =
            λ c p q r t. ground (arith, k c, k (parent (parent j)), l.edges c, l.edges (parent j));
      }

  rise-Below : Below n (swapped h (parent j) j) (parent j)
  rise-Below c p q r =
      let k = key-swapped h (parent j) j above in_reach in
      ground (arith, k c, k (parent j), l.edges c)

-- The result of a sift: in order, with the items of h, and with what stood behind the first n.
pub record Sifted (n : ℕ) (h r : MsgHeap) : Type 0 where
  pub sound : IsSound n r
  pub ordered : Ordered n r
  pub kept : Kept n h r

pub up_loop-Sifted :
    (k n : ℕ) (h : MsgHeap) (j : ℕ)
    → j < k
    → j < n
    → IsSound n h
    → Loose n h j
    → Below n h j
    → (r : MsgHeap) × (up_loop k h j ≡ some r) × Sifted n h r
unfolding up_loop
up_loop-Sifted zero n h j f hj s l b = absurd (omega arith)
up_loop-Sifted (suc k) n h j f hj s l b = elim (Bool-cases (parent j == j)) [
  | inl root ↦ (
    h,
    rw root refl,
    record {
      sound = s;
      ordered = settled n h j l b (λ pos. ground (arith, root));
      kept = Kept-refl n h;
    },
  )
  | inr inner ↦
      let pos : 0 < j = ground (arith, inner) in
      let hi : parent j < length h = omega (arith, hj, s.fits) in
      let hj' : j < length h = omega (arith, hj, s.fits) in
      let e = less-some h j (parent j) hj' hi s.small in
      elim (Bool-cases (ltb (key h j) (key h (parent j)))) [
        | inl smaller ↦
            let lt : key h j < key h (parent j) = ground (arith, smaller) in
            let (r, f', q) =
              up_loop-Sifted k n (swapped h (parent j) j) (parent j) (omega arith) (omega arith)
                (swapped-IsSound n h (parent j) j hi hj' s) (rise-Loose n h j pos hj s l b lt)
                (rise-Below n h j pos hj s l b lt) in
            (
              r,
              rw (inner, e, smaller, swap-some h (parent j) j hi hj') f',
              record {
                sound = q.sound;
                ordered = q.ordered;
                kept = Kept-trans (Kept-swapped n h (parent j) j hi hj' (omega arith) hj) q.kept;
              },
            )
        | inr done ↦ (
          h,
          rw (inner, e, done) refl,
          record {
            sound = s;
            ordered = settled n h j l b (λ p. ground (arith, done));
            kept = Kept-refl n h;
          },
        )
      ]
]
