-- ===== src/Runtime/Heap/Sink.antt =====
-- down of container/heap restores the order below an item, or leaves the heap as it is.
use uav.Base.{
  ℕ, zero, suc, ◌+◌, ◌*◌, ◌<◌, ◌≤◌, ◌≡◌, ◌⊎◌, inl, inr, refl, ltb, leb, some, arith, length,
  Bool-cases,
}
use uav.Runtime.Heap.{MsgHeap, parent, child, down_loop}
use uav.Runtime.Heap.Tally.{Kept, Kept-refl, Kept-trans, Kept-swapped}
use uav.Runtime.Heap.Order.{key, less-some, swapped, swap-some, key-swapped}
use uav.Runtime.Heap.Sift.{IsSound, Ordered, Loose, Below, settled, swapped-IsSound}

-- m is the child of i with the lower rank.
record LeastChild (n : ℕ) (h : MsgHeap) (i m : ℕ) : Type 0 where
  inside : m < n
  under : (m ≡ 2 * i + 1) ⊎ (m ≡ 2 * i + 2)
  least : (c : ℕ) → 0 < c → c < n → parent c ≡ i → key h m ≤ key h c

child_places : (i c : ℕ) → 0 < c → parent c ≡ i → (c ≡ 2 * i + 1) ⊎ (c ≡ 2 * i + 1 + 1)
child_places i c p q = ground arith

child-LeastChild :
    (n : ℕ) (h : MsgHeap) (i : ℕ)
    → 2 * i + 1 < n
    → IsSound n h
    → (m : ℕ) × (child h i n ≡ some m) × LeastChild n h i m
unfolding child
child-LeastChild n h i b s = elim (Bool-cases (ltb (2 * i + 1 + 1) n)) [
  | inr alone ↦ (
    2 * i + 1,
    rw alone refl,
    record { inside = b; under = inl refl; least = λ c p q r. ground (arith, alone) },
  )
  | inl both ↦
      let e =
        less-some h (2 * i + 1 + 1) (2 * i + 1) (ground (arith, both, s.fits))
          (omega (arith, b, s.fits)) s.small in
      elim (Bool-cases (ltb (key h (2 * i + 1 + 1)) (key h (2 * i + 1)))) [
        | inl right ↦ (
          2 * i + 1 + 1,
          rw (both, e, right) refl,
          record {
            inside = ground (arith, both);
            under = inr (omega arith);
            least = λ c p q r. ground (arith, right, child_places i c);
          },
        )
        | inr left ↦ (
          2 * i + 1,
          rw (both, e, left) refl,
          record {
            inside = b;
            under = inl refl;
            least = λ c p q r. ground (arith, left, child_places i c);
          },
        )
      ]
]

module _ (n : ℕ) (h : MsgHeap) (i m : ℕ) (s : IsSound n h) (l : Loose n h i)
    (w : LeastChild n h i m) (smaller : key h m < key h i) where
  sink-Loose : Loose n (swapped h i m) m
  sink-Loose =
      let hm : m < length h = omega (arith, w.inside, s.fits) in
      let k = key-swapped h i m (omega (arith, w.under, hm)) hm in
      record {
        edges = λ c p q r t.
            ground (arith, k c, k (parent c), l.edges c, l.bridged m, w.least c, w.under, w.inside);
        bridged = λ c p q r t. ground (arith, k c, k (parent m), l.edges c, w.under);
      }

  sink-above : key (swapped h i m) (parent m) ≤ key (swapped h i m) m
  sink-above =
      let hm : m < length h = omega (arith, w.inside, s.fits) in
      let k = key-swapped h i m (omega (arith, w.under, hm)) hm in
      ground (arith, k m, k (parent m), w.under)

-- Where down stops: at once, with nothing below i out of order, or further down, with all in order.
pub record Sunk (n : ℕ) (h : MsgHeap) (i : ℕ) (r : MsgHeap) (i' : ℕ) : Type 0 where
  pub sound : IsSound n r
  pub kept : Kept n h r
  pub stopped : ((i' ≡ i) × (r ≡ h) × Below n h i) ⊎ ((i < i') × Ordered n r)

pub down_loop-Sunk :
    (k n : ℕ) (h : MsgHeap) (i : ℕ)
    → n < k + i
    → 0 < k
    → IsSound n h
    → Loose n h i
    → (r : MsgHeap) × (i' : ℕ) × (down_loop k h i n ≡ some (r, i')) × Sunk n h i r i'
unfolding down_loop
down_loop-Sunk zero n h i f g s l = absurd (omega arith)
down_loop-Sunk (suc k) n h i f g s l =
    let stay : Below n h i → Sunk n h i h i =
      λ b. record { sound = s; kept = Kept-refl n h; stopped = inl (refl, refl, b) } in
    elim (Bool-cases (leb n (2 * i + 1))) [
      | inl leaf ↦ (h, i, rw leaf refl, stay (λ c p q r. ground (arith, leaf)))
      | inr inner ↦
          let (m, found, w) = child-LeastChild n h i (ground (arith, inner)) s in
          let hm : m < length h = omega (arith, w.inside, s.fits) in
          let hi : i < length h = omega (arith, w.under, hm) in
          let e = less-some h m i hm hi s.small in
          elim (Bool-cases (ltb (key h m) (key h i))) [
            | inr done ↦ (
              h,
              i,
              rw (inner, found, e, done) refl,
              stay (λ c p q r. ground (arith, done, w.least c)),
            )
            | inl smaller ↦
                let lt : key h m < key h i = ground (arith, smaller) in
                let (r, i', f', q) =
                  down_loop-Sunk k n (swapped h i m) m (omega (arith, w.under))
                    (omega (arith, w.under, w.inside)) (swapped-IsSound n h i m hi hm s)
                    (sink-Loose n h i m s l w lt) in
                let kept = Kept-swapped n h i m hi hm (omega (arith, w.under, w.inside)) w.inside in
                (
                  r,
                  i',
                  rw (inner, found, e, smaller, swap-some h i m hi hm) f',
                  record {
                    sound = q.sound;
                    kept = Kept-trans kept q.kept;
                    stopped = inr (elim q.stopped [
                      | inl (here, same, below) ↦ (
                        omega (arith, w.under, here),
                        rw same (
                            settled n (swapped h i m) m (sink-Loose n h i m s l w lt) below
                              (λ p. sink-above n h i m s l w lt)),
                      )
                      | inr (further, ordered) ↦ (omega (arith, w.under, further), ordered)
                    ]);
                  },
                )
          ]
    ]
