-- ===== src/Algorithm/Sampling/Tests.antt =====
-- A permutation for the tests, and runs of sampleN.
use uav.Base.{
  some_eq, ℕ, zero, suc, ◌+◌, ◌<◌, ◌≡◌, refl, List, [], ◌∷◌, some, length, get_elem?, min, arith,
  ap,
}
use uav.Algorithm.Sampling.{Permutes, Places, sample_n, pick, sample_n-Places}

-- The numbers from k on.
unfoldable pub count_from : ℕ → ℕ → List ℕ
count_from k zero = []
count_from k (suc n) = k ∷ count_from (suc k) n

unfoldable pub in_order : ℕ → List ℕ
unfolding count_from
in_order n = count_from 0 n

length-count_from : (k n : ℕ) → length (count_from k n) ≡ n
unfolding count_from
length-count_from k zero = refl
length-count_from k (suc n) = ap suc (length-count_from (suc k) n)

get_elem?-count_from : (k n i j : ℕ) → get_elem? (count_from k n) i ≡ some j → (j ≡ k + i) × (i < n)
unfolding count_from
get_elem?-count_from k zero i j e = ground (arith, e)
get_elem?-count_from k (suc n) zero j e = (omega (arith, some_eq k j e), omega arith)
get_elem?-count_from k (suc n) (suc i) j e =
    let (x, y) = get_elem?-count_from (suc k) n i j e in (omega arith, omega arith)

pub in_order-Permutes : Permutes in_order
unfolding in_order
in_order-Permutes = record {
  count = length-count_from 0;
  below = λ n i k e. omega (arith, get_elem?-count_from 0 n i k e);
  distinct =
      λ n i j k e f. omega (arith, get_elem?-count_from 0 n i k e, get_elem?-count_from 0 n j k f);
}

sample_run : sample_n in_order (7 ∷ 8 ∷ 9 ∷ []) 2 ≡ some (7 ∷ 8 ∷ [])
unfolding sample_n in_order pick
sample_run = refl

sample_n-Places_example :
    (out : List ℕ) × (sample_n in_order (7 ∷ 8 ∷ 9 ∷ []) 2 ≡ some out)
    × (length out ≡ min 2 3)
    × (place : ℕ → ℕ) × Places (7 ∷ 8 ∷ 9 ∷ []) out place
sample_n-Places_example = sample_n-Places in_order in_order-Permutes (7 ∷ 8 ∷ 9 ∷ []) 2
