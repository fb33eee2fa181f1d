-- ===== src/Runtime/Timers/History.antt =====
-- Which timers run after any calls.
use uav.Base.{
  ℕ, ◌≡◌, inl, inr, refl, sym, ap, ◌∙◌, ◌||◌, Bool, true, false, Option, some, Option-cases,
  Bool-cases, none_ne, true_ne, String, List, [], ◌∷◌, arith, if◌then◌else◌, ◌>>=◌, above64,
  string_key,
}
use uav.Base.Map
use uav.Base.Map.{Map, is_some, listed}
use uav.Runtime.Timers.{
  TimerManager, new_timer_manager, release_name, make_timer, set_timer, cancel, cancel_each,
  stop_all,
}
use uav.Runtime.Timers.Table.{
  same, entry, IsTable, delete-IsTable, made_timer, made_timer-IsTable, missing-Detached, released,
  release-released, released-Detached,
}

pub data Call : Type 0 where
  setting : (name : String) (interval : ℕ) → Call
  cancelling : (name : String) → Call
  stopping : Call

unfoldable pub run_call : Call → TimerManager → Option TimerManager
run_call (setting name interval) = set_timer name interval
run_call (cancelling name) = cancel name
run_call stopping = stop_all

-- A manager after these calls, the last one first.
unfoldable pub after : List Call → Option TimerManager
after [] = some new_timer_manager
after (call ∷ earlier) = after earlier >>= run_call call

abbrev pub Positive : List Call → Type 0
Positive [] = Unit {0}
Positive (setting name interval ∷ earlier) = (above64 interval 0 ≡ true) × Positive earlier
Positive (cancelling name ∷ earlier) = Positive earlier
Positive (stopping ∷ earlier) = Positive earlier

-- The last call that concerns the name is Set.
unfoldable pub active : String → List Call → Bool
active name [] = false
active name (setting n interval ∷ earlier) = same n name || active name earlier
active name (cancelling n ∷ earlier) =
    let before = active name earlier in if same n name then false else before
active name (stopping ∷ earlier) = false

-- What a call makes of the table.
record Becomes (tm r : TimerManager) (f : String → Bool → Bool) : Type 0 where
  table : IsTable r
  names : (n : String) → is_some (Map.get n r.timers) ≡ f n (is_some (Map.get n tm.timers))

cancel-Becomes :
    (name : String) (tm : TimerManager)
    → IsTable tm
    → (r : TimerManager) × (cancel name tm ≡ some r)
      × Becomes tm r (λ n was. if same name n then false else was)
unfolding cancel released
cancel-Becomes name tm v = elim (Option-cases (Map.get name tm.timers)) [
  | inl missing ↦ (
    tm,
    rw (cancel, missing) refl,
    record {
      table = v;
      names = λ n. elim (Bool-cases (same name n)) [
        | inl this ↦ rw this (
            ap (λ k. is_some (Map.get k tm.timers)) (sym ((string_key.same_iff name n).0 this))
            ∙ rw missing refl)
        | inr other ↦ rw other refl
      ];
    },
  )
  | inr (e, found) ↦ (
    _,
    rw (cancel, found, release-released name tm v e found) refl,
    record {
      table =
          delete-IsTable name (released name tm v e found) (released-Detached name tm v e found);
      names = λ n. ap is_some (Map.get-delete name n tm.timers) ∙ ground arith;
    },
  )
]

cancel_each-Becomes :
    (names : List String) (tm : TimerManager)
    → IsTable tm
    → (r : TimerManager) × (cancel_each names tm ≡ some r)
      × Becomes tm r (λ n was. if listed n names then false else was)
unfolding cancel_each
cancel_each-Becomes [] tm v = (tm, refl, record { table = v; names = λ n. refl })
cancel_each-Becomes (name ∷ rest) tm v =
    let (r, e, b) = cancel-Becomes name tm v in
    let (r', e', b') = cancel_each-Becomes rest r b.table in
    (r', rw e e', record { table = b'.table; names = λ n. b'.names n ∙ ground (arith, b.names n) })

stop_all-Becomes :
    (tm : TimerManager)
    → IsTable tm
    → (r : TimerManager) × (stop_all tm ≡ some r) × Becomes tm r (λ n was. false)
unfolding stop_all
stop_all-Becomes tm v =
    let (r, e, b) = cancel_each-Becomes (Map.keys tm.timers) tm v in
    (
      r,
      e,
      record {
        table = b.table;
        names = λ n. b.names n ∙ ground (arith, Map.listed-keys n tm.timers);
      },
    )

set_timer-Becomes :
    (name : String) (interval : ℕ) (tm : TimerManager)
    → above64 interval 0 ≡ true
    → IsTable tm
    → (r : TimerManager) × (set_timer name interval tm ≡ some r)
      × Becomes tm r (λ n was. same name n || was)
unfolding set_timer release_name make_timer made_timer released
set_timer-Becomes name interval tm positive v = elim (Option-cases (Map.get name tm.timers)) [
  | inl missing ↦ (
    made_timer name tm (missing-Detached name tm v missing),
    rw (release_name, missing, positive) refl,
    record {
      table = made_timer-IsTable name tm (missing-Detached name tm v missing);
      names = λ n. ap is_some (Map.get-put name n (entry tm.made) tm.timers) ∙ ground arith;
    },
  )
  | inr (e, found) ↦
      let tm' = released name tm v e found in
      let d = released-Detached name tm v e found in
      (
        made_timer name tm' d,
        rw (release_name, found, release-released name tm v e found, positive) refl,
        record {
          table = made_timer-IsTable name tm' d;
          names = λ n. ap is_some (Map.get-put name n (entry tm.made) tm.timers) ∙ ground arith;
        },
      )
]

new_timer_manager-IsTable : IsTable new_timer_manager
unfolding new_timer_manager Map.get
new_timer_manager-IsTable = record {
  held = λ name e found. absurd (none_ne e found);
  running = λ i t. absurd (true_ne (sym t));
  ended = λ i b. absurd (omega arith);
}

-- Whatever Set, with positive intervals, Cancel and StopAll do to a new manager, no call panics, in
-- particular no channel is closed twice. Afterwards a name stands in the table exactly if the last
-- call that concerns it was Set, and the tickers that run are those of the entries of the table, one
-- for each: every other goroutine has had its channel closed.
pub after-IsTable :
    (calls : List Call)
    → Positive calls
    → (tm : TimerManager) × (after calls ≡ some tm)
      × IsTable tm
      × ((name : String) → is_some (Map.get name tm.timers) ≡ active name calls)
unfolding after run_call active new_timer_manager Map.get
after-IsTable [] p = (new_timer_manager, refl, new_timer_manager-IsTable, λ name. refl)
after-IsTable (setting name interval ∷ earlier) (positive, p) =
    let (tm, e, v, names) = after-IsTable earlier p in
    let (r, f, b) = set_timer-Becomes name interval tm positive v in
    (r, rw e f, b.table, λ n. b.names n ∙ ap (λ was. same name n || was) (names n))
after-IsTable (cancelling name ∷ earlier) p =
    let (tm, e, v, names) = after-IsTable earlier p in
    let (r, f, b) = cancel-Becomes name tm v in
    (r, rw e f, b.table, λ n. b.names n ∙ ap (λ was. if same name n then false else was) (names n))
after-IsTable (stopping ∷ earlier) p =
    let (tm, e, v, names) = after-IsTable earlier p in
    let (r, f, b) = stop_all-Becomes tm v in (r, rw e f, b.table, b.names)
