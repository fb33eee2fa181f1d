-- ===== src/Algorithm/Sampling.antt =====
-- sampleN of gossip.go and weaknet.go: a choice of peers. `perm` stands for rng.Perm of math/rand.
pub mod Tests
use uav.Base.{
  ◌>>=◌, none_ne, length-take, ◌∙◌, ltb→lt, ℕ, zero, suc, ◌<◌, ◌≤◌, ◌≡◌, refl, sym, ap, ltb, leb,
  Bool, Option, none, some, List, [], ◌∷◌, if◌then◌else◌, length, get_elem?, take, arith, min,
  get_or, Bool-cases, inl, inr,
}

-- What math/rand documents of Perm: the numbers below n, one each.
pub record Permutes (perm : ℕ → List ℕ) : Type 0 where
  pub count : (n : ℕ) → length (perm n) ≡ n
  pub below : (n i k : ℕ) → get_elem? (perm n) i ≡ some k → k < n
  pub distinct :
      (n i j k : ℕ) → get_elem? (perm n) i ≡ some k → get_elem? (perm n) j ≡ some k → i ≡ j

-- The loop that fills `out`; `none` is an index out of range.
unfoldable pub pick : List ℕ → List ℕ → Option (List ℕ)
pick peers [] = some []
pick peers (i ∷ is) = do peer ← get_elem? peers i; rest ← pick peers is; some (peer ∷ rest)

-- sampleN, for n ≥ 0.
unfoldable pub sample_n : (ℕ → List ℕ) → List ℕ → ℕ → Option (List ℕ)
unfolding pick
sample_n perm peers n =
    if leb (length peers) n then some peers else pick peers (take n (perm (length peers)))

-- The places of the targets among the peers, one place for each target.
pub record Places (peers out : List ℕ) (place : ℕ → ℕ) : Type 0 where
  pub at : (i : ℕ) → i < length out → get_elem? out i ≡ get_elem? peers (place i)
  pub distinct : (i j : ℕ) → i < length out → j < length out → place i ≡ place j → i ≡ j

get_elem?-below {ℓ} :
    {A : Type ℓ} (xs : List A) (i : ℕ) (d : A)
    → i < length xs
    → get_elem? xs i ≡ some (get_or xs i d)
get_elem?-below [] i d h = elim h [ ]
get_elem?-below (x ∷ xs) zero d h = refl
get_elem?-below (x ∷ xs) (suc i) d h = get_elem?-below xs i d (omega arith)

get_elem?-take {ℓ} :
    {A : Type ℓ} (xs : List A) (n i : ℕ) → i < n → get_elem? (take n xs) i ≡ get_elem? xs i
get_elem?-take xs zero i h = elim h [ ]
get_elem?-take [] (suc n) i h = refl
get_elem?-take (x ∷ xs) (suc n) zero h = refl
get_elem?-take (x ∷ xs) (suc n) (suc i) h = get_elem?-take xs n i (omega arith)

take-some : (xs : List ℕ) (n i k : ℕ) → get_elem? (take n xs) i ≡ some k → get_elem? xs i ≡ some k
take-some xs zero i k e = absurd (none_ne k e)
take-some [] (suc n) i k e = e
take-some (x ∷ xs) (suc n) zero k e = e
take-some (x ∷ xs) (suc n) (suc i) k e = take-some xs n i k e

get_elem?-extend :
    (i peer : ℕ) (rest is peers : List ℕ)
    → get_elem? peers i ≡ some peer
    → ((j k : ℕ) → get_elem? is j ≡ some k → get_elem? rest j ≡ get_elem? peers k)
    → (j k : ℕ) → get_elem? (i ∷ is) j ≡ some k
    → get_elem? (peer ∷ rest) j ≡ get_elem? peers k
get_elem?-extend i peer rest is peers found at zero k e = cc
get_elem?-extend i peer rest is peers found at (suc j) k e = at j k e

pick-some :
    (peers is : List ℕ)
    → ((i k : ℕ) → get_elem? is i ≡ some k → k < length peers)
    → (out : List ℕ) × (pick peers is ≡ some out)
      × (length out ≡ length is)
      × ((i k : ℕ) → get_elem? is i ≡ some k → get_elem? out i ≡ get_elem? peers k)
unfolding pick
pick-some peers [] h = ([], refl, refl, λ i k e. absurd (none_ne k e))
pick-some peers (i ∷ is) h =
    let (rest, e, l, at) = pick-some peers is (λ j k. h (suc j) k) in
    let found = get_elem?-below peers i 0 (h 0 i refl) in
    (
      get_or peers i 0 ∷ rest,
      rw (found, e) refl,
      ap suc l,
      get_elem?-extend i (get_or peers i 0) rest is peers found at,
    )

-- The branch that samples: the places are the first n numbers of the permutation.
module _ (perm : ℕ → List ℕ) (p : Permutes perm) (peers : List ℕ) (n : ℕ)
    (few : n < length peers) where
  chosen : List ℕ
  chosen = take n (perm (length peers))

  length-chosen : length chosen ≡ n
  unfolding chosen
  length-chosen = omega (arith, length-take n (perm (length peers)), p.count (length peers))

  chosen_at : (i : ℕ) → i < n → get_elem? (perm (length peers)) i ≡ some (get_or chosen i 0)
  unfolding chosen
  chosen_at i h =
      sym (get_elem?-take (perm (length peers)) n i h)
      ∙ get_elem?-below chosen i 0 (omega (arith, length-chosen))

  chosen_below : (i k : ℕ) → get_elem? chosen i ≡ some k → k < length peers
  unfolding chosen
  chosen_below i k e = p.below (length peers) i k (take-some (perm (length peers)) n i k e)

  pick-Places :
      (out : List ℕ) × (pick peers chosen ≡ some out)
      × (length out ≡ n)
      × (place : ℕ → ℕ) × Places peers out place
  pick-Places =
      let (out, e, l, at) = pick-some peers chosen chosen_below in
      (
        out,
        e,
        l ∙ length-chosen,
        (λ i. get_or chosen i 0),
        record {
          at = λ i h. at i (get_or chosen i 0) (get_elem?-below chosen i 0 (omega (arith, l)));
          distinct = λ i j h k same.
              p.distinct (length peers) i j (get_or chosen i 0)
                (chosen_at i (omega (arith, l, length-chosen)))
                (chosen_at j (omega (arith, l, length-chosen)) ∙ ap some (sym same));
        },
      )

-- If rng.Perm yields permutations, sampleN never indexes out of range; it returns n of the peers, or
-- all when there are fewer, from as many different places of the list.
pub sample_n-Places :
    (perm : ℕ → List ℕ)
    → Permutes perm
    → (peers : List ℕ) (n : ℕ)
    → (out : List ℕ) × (sample_n perm peers n ≡ some out)
      × (length out ≡ min n (length peers))
      × (place : ℕ → ℕ) × Places peers out place
unfolding sample_n chosen
sample_n-Places perm p peers n = elim (Bool-cases (leb (length peers) n)) [
  | inl all ↦
      rw all (
        peers,
        refl,
        ground arith,
        (λ i. i),
        record { at = λ i h. refl; distinct = λ i j h k e. e },
      )
  | inr some_of ↦
      let (out, e, l, place, placed) = pick-Places perm p peers n (ground arith) in
      rw some_of (out, e, ground (arith, l), place, placed)
]
