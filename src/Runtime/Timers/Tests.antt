-- ===== src/Runtime/Timers/Tests.antt =====
-- Examples of the timers.
use uav.Base.{◌≡◌, refl, true, some, String, List, [], ◌∷◌, string_key}
use uav.Base.Map
use uav.Runtime.Timers.{TimerManager}
use uav.Runtime.Timers.Table.{IsTable}
use uav.Runtime.Timers.History.{Call, setting, cancelling, stopping, after, active, after-IsTable}

-- The last call first: the election timer is reset, and cancelled in the end.
abbrev calls : List Call
calls =
    cancelling "election"
    ∷ setting "heartbeat" 50
    ∷ setting "election" 300
    ∷ setting "election" 200
    ∷ stopping
    ∷ []

active_names : active "heartbeat" calls ≡ true
unfolding active
active_names = refl

after-IsTable_example :
    (tm : TimerManager) × (after calls ≡ some tm)
    × IsTable tm
    × ((name : String) → Map.is_some (Map.get name tm.timers) ≡ active name calls)
after-IsTable_example = after-IsTable calls (refl, (refl, (refl, tt)))
