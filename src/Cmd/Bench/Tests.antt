-- ===== src/Cmd/Bench/Tests.antt =====
-- Two nodes that have met, and one that has not.
use uav.Base.{◌≡◌, refl, some, String, List, [], ◌∷◌, arith, string_key}
use uav.Base.Map
use uav.Algorithm.Replica.{Entry}
use uav.Algorithm.Gossip.{State}
use uav.Cmd.Bench.{deadline, tick, all_converged, convergence_loop, missing, all_match}
use uav.Cmd.Bench.Agreement.{all_converged-all_match}

abbrev pos : List String
pos = "pos_1" ∷ "pos_2" ∷ []

abbrev at : String → Entry String
at v = record { value = v; version = 1 }

abbrev both_there : State
both_there = ("pos_1", at "x=10.0") ∷ ("pos_2", at "x=20.0") ∷ []

abbrev one_there : State
one_there = ("pos_2", at "x=20.0") ∷ []

all_converged-all_match_example :
    all_converged 2 (both_there ∷ one_there ∷ []) ≡ all_match pos (both_there ∷ one_there ∷ [])
all_converged-all_match_example =
    all_converged-all_match pos (both_there ∷ one_there ∷ []) refl
      (refl, (λ k l. l), (refl, (λ k l. ground (arith, l)), tt))

-- The loop goes on past the node that has one entry, and stops at the tick after.
second_tick :
    convergence_loop 2 (
      tick 50 (both_there ∷ one_there ∷ [])
      ∷ tick 100 (both_there ∷ both_there ∷ [])
      ∷ deadline
      ∷ [])
    ≡ some 100
unfolding convergence_loop all_converged
second_tick = refl

one_missing : missing pos one_there ≡ 1
unfolding missing Map.get
one_missing = refl
