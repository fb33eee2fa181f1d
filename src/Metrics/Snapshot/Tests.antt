-- ===== src/Metrics/Snapshot/Tests.antt =====
-- Examples of a snapshot.
use uav.Base.{ℕ, ◌/◌, ◌*◌, ◌≡◌, refl, ltb, some, [], ◌∷◌, string_key}
use uav.Base.Map
use uav.Metrics.Snapshot.{Floats, type_names, sorted_copy, by_type, percentile, latency_stats}

-- Natural numbers of thousandths in place of float64.
abbrev thousandths : Floats
thousandths = record {
  Float = ℕ;
  zero_float = 0;
  of_uint = λ n. n * 1000;
  of_int = λ n. n * 1000;
  divide = λ x y. x * 1000 / y;
  less = ltb;
  milli = 1;
  seconds = λ ms. ms;
  p50 = 500;
  p95 = 950;
  p99 = 990;
  scaled = λ p k. p * k / 1000;
}

sorted_negative :
    sorted_copy (3 ∷ 18446744073709551615 ∷ 1 ∷ []) ≡ 18446744073709551615 ∷ 1 ∷ 3 ∷ []
unfolding sorted_copy
sorted_negative = refl

median : percentile thousandths (10 ∷ 20 ∷ 30 ∷ 40 ∷ []) 500 ≡ 20000
unfolding percentile
median = refl

average : (latency_stats thousandths (30 ∷ 10 ∷ 20 ∷ [])).avg ≡ 20000
unfolding latency_stats
average = refl

sent_states : Map.get "STATE" (by_type 0 type_names (4 ∷ 7 ∷ 0 ∷ 0 ∷ 0 ∷ []) []) ≡ some 7
unfolding by_type Map.get Map.put
sent_states = refl
