-- ===== src/Runtime/Timers/Table.antt =====
-- The table of the timers names exactly the tickers that run.
use uav.Base.{
  ℕ, ◌+◌, ◌<◌, ◌≡◌, inl, inr, refl, sym, ap, ◌∙◌, ◌==◌, not, Bool, true, false, none, some,
  Bool-cases, none_ne, some_eq, true_ne, ==_iff, String, arith, if◌then◌else◌, string_key,
}
use uav.Base.Map
use uav.Base.Map.{Map}
use uav.Runtime.Timers.{TimerEntry, TimerManager, release}

abbrev pub same : String → String → Bool
same = string_key.same

-- The entry that make_timer makes as number i.
abbrev pub entry : ℕ → TimerEntry
entry i = record { ticker = i; stop_ch = i }

-- The timer runs, and passes this name on.
abbrev pub Live : TimerManager → String → ℕ → Type 0
Live tm name i = (i < tm.made) × (tm.names i ≡ name) × (tm.ticking i ≡ true)

pub record IsTable (tm : TimerManager) : Type 0 where
  pub held :
      (name : String) (e : TimerEntry)
      → Map.get name tm.timers ≡ some e
      → (e ≡ entry e.ticker) × Live tm name e.ticker
  pub running :
      (i : ℕ)
      → tm.ticking i ≡ true
      → (i < tm.made) × (Map.get (tm.names i) tm.timers ≡ some (entry i))
  pub ended : (i : ℕ) → i < tm.made → tm.closed i ≡ not (tm.ticking i)

-- The same, but for a name whose entry, if any, has been released.
pub record Detached (gone : String) (tm : TimerManager) : Type 0 where
  pub held :
      (name : String) (e : TimerEntry)
      → same gone name ≡ false
      → Map.get name tm.timers ≡ some e
      → (e ≡ entry e.ticker) × Live tm name e.ticker
  pub running :
      (i : ℕ)
      → tm.ticking i ≡ true
      → (i < tm.made)
        × (same gone (tm.names i) ≡ false)
        × (Map.get (tm.names i) tm.timers ≡ some (entry i))
  pub ended : (i : ℕ) → i < tm.made → tm.closed i ≡ not (tm.ticking i)

module _ (gone : String) (tm : TimerManager) (d : Detached gone tm) where
  pub delete-IsTable : IsTable (record tm { timers = Map.delete gone tm.timers })
  delete-IsTable = record {
    held = λ name e found. elim (Bool-cases (same gone name)) [
      | inl this ↦ absurd (none_ne e (sym (Map.get-delete_same gone name tm.timers this) ∙ found))
      | inr other ↦
          d.held name e other (sym (Map.get-delete_other gone name tm.timers other) ∙ found)
    ];
    running = λ i t.
        let (b, other, found) = d.running i t in
        (b, Map.get-delete_other gone (tm.names i) tm.timers other ∙ found);
    ended = d.ended;
  }

  -- The manager that make_timer makes.
  unfoldable pub made_timer : TimerManager
  made_timer = record {
    timers = Map.put gone (entry tm.made) tm.timers;
    made = tm.made + 1;
    closed = λ i. if tm.made == i then false else tm.closed i;
    ticking = λ i. if tm.made == i then true else tm.ticking i;
    names = λ i. if tm.made == i then gone else tm.names i;
  }

  made_timer-held :
      (name : String) (e : TimerEntry)
      → Map.get name (Map.put gone (entry tm.made) tm.timers) ≡ some e
      → (e ≡ entry e.ticker) × Live made_timer name e.ticker
  unfolding made_timer
  made_timer-held name e found = elim (Bool-cases (same gone name)) [
    | inl this ↦
        let new : entry tm.made ≡ e =
          some_eq (entry tm.made) e
            (sym (Map.get-put_same gone name (entry tm.made) tm.timers this) ∙ found) in
        let number : tm.made ≡ e.ticker = ap (λ x. x.ticker) new in
        let here : (tm.made == e.ticker) ≡ true = ground (arith, number) in
        (
          sym new ∙ ap entry number,
          (omega (arith, number), rw here ((string_key.same_iff gone name).0 this), rw here refl),
        )
    | inr other ↦
        let (shape, (b, named, runs)) =
          d.held name e other
            (sym (Map.get-put_other gone name (entry tm.made) tm.timers other) ∙ found) in
        let old : (tm.made == e.ticker) ≡ false = ground (arith, b) in
        (shape, (omega (arith, b), rw old named, rw old runs))
  ]

  pub made_timer-IsTable : IsTable made_timer
  unfolding made_timer
  made_timer-IsTable = record {
    held = made_timer-held;
    running = λ i t. elim (Bool-cases (tm.made == i)) [
      | inl new ↦ (
        ground (arith, new),
        rw new (
            Map.get-put_self gone (entry tm.made) tm.timers
            ∙ ap (λ j. some (entry j)) (ground (arith, new))),
      )
      | inr old ↦
          let (b, other, found) = d.running i (sym (rw old refl) ∙ t) in
          (
            omega (arith, b),
            rw old (Map.get-put_other gone (tm.names i) (entry tm.made) tm.timers other ∙ found),
          )
    ];
    ended = λ i b. ground (arith, d.ended i);
  }

module _ (name : String) (tm : TimerManager) (v : IsTable tm) where
  pub missing-Detached : Map.get name tm.timers ≡ none → Detached name tm
  missing-Detached missing = record {
    held = λ n e other found. v.held n e found;
    running = λ i t.
        let (b, found) = v.running i t in
        let other : same name (tm.names i) ≡ false = elim (Bool-cases (same name (tm.names i))) [
          | inr differs ↦ differs
          | inl agrees ↦
              let this : name ≡ tm.names i = (string_key.same_iff name (tm.names i)).0 agrees in
              absurd (none_ne (entry i) (sym missing ∙ ap (λ n. Map.get n tm.timers) this ∙ found))
        ] in
        (b, other, found);
    ended = v.ended;
  }

  module _ (e : TimerEntry) (found : Map.get name tm.timers ≡ some e) where
    -- What release leaves.
    unfoldable pub released : TimerManager
    released = record tm {
      closed = λ i. if e.stop_ch == i then true else tm.closed i;
      ticking = λ i. if e.ticker == i then false else tm.ticking i;
    }

    pub release-released : release e tm ≡ some released
    unfolding release released
    release-released =
        let (shape, (b, named, runs)) = v.held name e found in
        let one : e.stop_ch ≡ e.ticker = ap (λ x. x.stop_ch) shape in
        let open_yet : tm.closed e.stop_ch ≡ false =
          ap tm.closed one ∙ v.ended e.ticker b ∙ rw runs refl in
        rw open_yet refl

    pub released-Detached : Detached name released
    unfolding released
    released-Detached =
        let (shape, (b, named, runs)) = v.held name e found in
        let one : e.stop_ch ≡ e.ticker = ap (λ x. x.stop_ch) shape in
        record {
          held = λ n f other found_f.
              let (shape_f, (b_f, named_f, runs_f)) = v.held n f found_f in
              let apart : (e.ticker == f.ticker) ≡ false =
                elim (Bool-cases (e.ticker == f.ticker)) [
                  | inr differs ↦ differs
                  | inl agrees ↦
                      let number : e.ticker ≡ f.ticker = (==_iff e.ticker f.ticker).0 agrees in
                      let this : name ≡ n = sym named ∙ ap tm.names number ∙ named_f in
                      absurd (true_ne (sym ((string_key.same_iff name n).1 this) ∙ other))
                ] in
              (shape_f, (b_f, named_f, rw apart runs_f));
          running = λ i t. elim (Bool-cases (e.ticker == i)) [
            | inl this ↦ absurd (true_ne (sym t ∙ rw this refl))
            | inr further ↦
                let (b_i, found_i) = v.running i (sym (rw further refl) ∙ t) in
                let other : same name (tm.names i) ≡ false =
                  elim (Bool-cases (same name (tm.names i))) [
                    | inr differs ↦ differs
                    | inl agrees ↦
                        let this : name ≡ tm.names i =
                          (string_key.same_iff name (tm.names i)).0 agrees in
                        let entries : e ≡ entry i =
                          some_eq e (entry i)
                            (sym found ∙ ap (λ n. Map.get n tm.timers) this ∙ found_i) in
                        absurd (
                          true_ne
                            (sym ((==_iff e.ticker i).1 (ap (λ x. x.ticker) entries)) ∙ further))
                  ] in
                (b_i, other, found_i)
          ];
          ended = λ i b'. rw one (ground (arith, v.ended i b'));
        }
