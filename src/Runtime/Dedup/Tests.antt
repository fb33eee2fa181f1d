-- ===== src/Runtime/Dedup/Tests.antt =====
-- Runs of the window, and its theorems at concrete inputs.
use uav.Base.{◌≡◌, refl, true, false, ◌||◌, [], ◌∷◌, arith}
use uav.Runtime.Dedup.{contains, observe}
use uav.Runtime.Dedup.Window.{after, passed, observe-after}

replayed : (observe (after (300 ∷ 7 ∷ 5 ∷ [])) 5).0 ≡ true
unfolding observe after
replayed = refl

late_but_new : (observe (after (100 ∷ 7 ∷ 5 ∷ [])) 6).0 ≡ false
unfolding observe after
late_but_new = refl

observe-after_example :
    (observe (after (300 ∷ 5 ∷ [])) 44).0 ≡ contains 44 (300 ∷ 5 ∷ []) || passed 44 (300 ∷ 5 ∷ [])
observe-after_example = observe-after (300 ∷ 5 ∷ []) 44 (omega arith) (omega arith)
