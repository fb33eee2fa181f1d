-- ===== src/Runtime/Timers.antt =====
-- node/runtime/timer.go, TimerManager: the table of named tickers. `none` is a panic.
pub mod Table
pub mod History
mod Tests
use uav.Base.{
  ℕ, zero, suc, ◌+◌, ◌==◌, not, Bool, true, false, Option, none, some, String, List, [], ◌∷◌,
  if◌then◌else◌, ◌>>=◌, above64, string_key,
}
use uav.Base.Map
use uav.Base.Map.{Map}

-- timerEntry: a ticker and a channel, by the numbers of their making.
pub record TimerEntry : Type 0 where
  pub ticker : ℕ
  pub stop_ch : ℕ

-- The manager with what it has made: how many tickers, each with its channel and its goroutine. For
-- each number, whether the channel is closed, whether the ticker runs, and the name that the
-- goroutine passes to the callback.
pub record TimerManager : Type 0 where
  pub timers : Map String TimerEntry
  pub made : ℕ
  pub closed : ℕ → Bool
  pub ticking : ℕ → Bool
  pub names : ℕ → String

-- NewTimerManager.
unfoldable pub new_timer_manager : TimerManager
new_timer_manager = record {
  timers = [];
  made = 0;
  closed = λ i. false;
  ticking = λ i. false;
  names = λ i. "";
}

-- close(e.stopCh), which panics on a closed channel, and e.ticker.Stop().
unfoldable pub release : TimerEntry → TimerManager → Option TimerManager
release e tm =
    if tm.closed e.stop_ch
    then none
    else some (record tm {
      closed = λ i. if e.stop_ch == i then true else tm.closed i;
      ticking = λ i. if e.ticker == i then false else tm.ticking i;
    })

-- The entry of this name released, if there is one.
unfoldable pub release_name : String → TimerManager → Option TimerManager
unfolding release
release_name name tm = elim (Map.get name tm.timers) [ none ↦ some tm | some e ↦ release e tm ]

-- Set from NewTicker on, which panics on an interval that is not positive.
unfoldable pub make_timer : String → ℕ → TimerManager → Option TimerManager
make_timer name d tm =
    if not (above64 d 0)
    then none
    else some (record {
      timers = Map.put name (record { ticker = tm.made; stop_ch = tm.made }) tm.timers;
      made = tm.made + 1;
      closed = λ i. if tm.made == i then false else tm.closed i;
      ticking = λ i. if tm.made == i then true else tm.ticking i;
      names = λ i. if tm.made == i then name else tm.names i;
    })

-- Set.
unfoldable pub set_timer : String → ℕ → TimerManager → Option TimerManager
unfolding release_name make_timer
set_timer name d tm = release_name name tm >>= make_timer name d

-- Cancel.
unfoldable pub cancel : String → TimerManager → Option TimerManager
unfolding release
cancel name tm =
    let drop_entry = λ (e : TimerEntry).
      release e tm >>= λ tm'. some (record tm' { timers = Map.delete name tm'.timers }) in
    elim (Map.get name tm.timers) [ none ↦ some tm | some e ↦ drop_entry e ]

-- The loop of StopAll, whose body does with a name what Cancel does.
unfoldable pub cancel_each : List String → TimerManager → Option TimerManager
unfolding cancel
cancel_each [] tm = some tm
cancel_each (name ∷ rest) tm = cancel name tm >>= cancel_each rest

-- StopAll.
unfoldable pub stop_all : TimerManager → Option TimerManager
unfolding cancel_each
stop_all tm = cancel_each (Map.keys tm.timers) tm
