-- ===== src/Runtime/Router/Tests.antt =====
-- Runs of the router, and its theorems at concrete inputs.
use uav.Base.{◌≡◌, refl, ℕ, ◌∷◌, [], arith, nat_key}
use uav.Message.{Message, zero_message, is_expired}
use uav.Runtime.Router.{dispatch, deliver, ttl_drop}
use uav.Runtime.Router.Delivery.{History, after_all, numbers, dispatch-after_all}

abbrev state : ℕ → ℕ → Message
state from seq = record zero_message { from = from; seq = seq; timestamp = 1000; ttl = 500 }

abbrev arrived : History
arrived = (state 2 5, 1100) ∷ (state 3 4, 1050) ∷ []

stale_run : (dispatch (after_all 1 arrived) (state 2 9) 2000).0 ≡ ttl_drop
unfolding dispatch after_all is_expired
stale_run = refl

-- The same number from another sender is no duplicate.
dispatch-after_all_example :
    (dispatch (after_all 1 arrived) (state 3 5) 1200).0 ≡ deliver (state 3 5)
unfolding is_expired numbers
dispatch-after_all_example =
    dispatch-after_all 1 arrived (state 3 5) 1200 (omega arith) (omega arith)
