-- ===== src/Runtime/Node/Lifecycle.antt =====
-- node/runtime/node.go: Start and Stop, and the node's timers. `none` is a panic.
use uav.Base.{
  ℕ, ◌+◌, ◌≡◌, inl, inr, refl, sym, ap, ◌∙◌, Bool, true, false, Bool-cases, Option-cases, Option,
  none, some, String, not, ◌&&◌, if◌then◌else◌, ◌>>=◌,
}
use uav.Runtime.Timers.{TimerManager, new_timer_manager, set_timer, cancel, stop_all}

-- `loops` counts the goroutines that wg waits for, `stop_closed` says that stopCh is closed and
-- `stopped` that once has run.
pub record Lifecycle : Type 0 where
  pub has_algorithm : Bool
  pub transport_up : Bool
  pub loops : ℕ
  pub stop_closed : Bool
  pub stopped : Bool
  pub timers : TimerManager

-- NewNode.
unfoldable pub new_lifecycle : Lifecycle
unfolding new_timer_manager
new_lifecycle = record {
  has_algorithm = false;
  transport_up = false;
  loops = 0;
  stop_closed = false;
  stopped = false;
  timers = new_timer_manager;
}

-- RegisterAlgorithm.
unfoldable pub register_algorithm : Lifecycle → Lifecycle
register_algorithm l = record l { has_algorithm = true }

-- SetTimer.
unfoldable pub node_set_timer : String → ℕ → Lifecycle → Option Lifecycle
node_set_timer name d l = do tm ← set_timer name d l.timers; some (record l { timers = tm })

-- CancelTimer.
unfoldable pub node_cancel_timer : String → Lifecycle → Option Lifecycle
node_cancel_timer name l = do tm ← cancel name l.timers; some (record l { timers = tm })

-- close(n.stopCh), which panics on a closed channel, and the wait for the loops, which end then.
unfoldable pub shut_down : Lifecycle → Option Lifecycle
shut_down l =
    if l.stop_closed
    then none
    else some (record l { stop_closed = true; transport_up = false; loops = 0 })

-- Start with the answers of the transport's and the algorithm's Start: whether it returns nil.
unfoldable pub start : Bool → Bool → Lifecycle → Option (Bool × Lifecycle)
unfolding shut_down
start transport_ok algorithm_ok l =
    let running = record l { transport_up = true; loops = l.loops + 2 } in
    let failed : Option (Bool × Lifecycle) = shut_down running >>= λ l'. some (false, l') in
    if not transport_ok
    then some (false, l)
    else if l.has_algorithm && not algorithm_ok
    then failed
    else some (true, running)

-- Stop.
unfoldable pub stop : Lifecycle → Option Lifecycle
unfolding shut_down
stop l =
    let once : Option Lifecycle = do
      tm ← stop_all l.timers
      shut_down (record l { stopped = true; timers = tm })
    in if l.stopped then some l else once

-- The channel is closed.
abbrev is_closed : Option (Bool × Lifecycle) → Bool
is_closed none = true
is_closed (some (ok, l)) = l.stop_closed

start-closes : (l : Lifecycle) → l.has_algorithm ≡ true → is_closed (start true false l) ≡ true
unfolding start shut_down
start-closes l has = elim (Bool-cases l.stop_closed) [
  | inl closed ↦ rw (has, closed) refl
  | inr opened ↦ rw (has, opened) refl
]

-- After a Start that failed in the algorithm, the first Stop panics: it closes a closed channel.
pub stop-start :
    (l l' : Lifecycle)
    → l.has_algorithm ≡ true
    → start true false l ≡ some (false, l')
    → l'.stopped ≡ false
    → stop l' ≡ none
unfolding stop shut_down
stop-start l l' has failed first =
    let closed : l'.stop_closed ≡ true = sym (ap is_closed failed) ∙ start-closes l has in
    elim (Option-cases (stop_all l'.timers)) [
      | inl panics ↦ rw (stop, first, panics) refl
      | inr (tm, stopped) ↦ rw (stop, first, stopped, closed) refl
    ]
