-- ===== src/Algorithm/Raft/Cluster/Balance.antt =====
-- Each step of a cluster keeps the votes in balance.
use uav.Base.{
  nat_key, ℕ, ◌<◌, ◌≤◌, ◌≡◌, refl, sym, subst, ◌∙◌, Bool, true, false, List, [], inl, inr, arith,
}
use uav.Base.Map.{listed}
use uav.Algorithm.Raft.State.{Raft, RaftConfig, new, Body}
use uav.Algorithm.Raft.Cluster.{
  Sent, Cluster, distinct, view, fresh, advance, Picks, Step, started, stopped, ticked, proposed,
  delivered, lost, Steps, here, next,
}
use uav.Algorithm.Raft.Cluster.After.{After-at}
use uav.Algorithm.Raft.Cluster.Turns.{Quietly, start-Quiet, stop-Quietly}
use uav.Algorithm.Raft.Cluster.Appends.{propose-Quiet}
use uav.Algorithm.Raft.Cluster.Candidates.{on_tick-turn}
use uav.Algorithm.Raft.Cluster.Requests.{
  Voted, Counted, Turn, quiet, votes, counts, handle_body-Turn,
}
use uav.Algorithm.Raft.Cluster.Ledger.{
  count, Picks-count, is_request, is_vote, lies, foreign, Ledger, IsBalanced,
}
use uav.Algorithm.Raft.Cluster.Ledgers.{entered, Sound, cast-kept, entered-IsBalanced}
use uav.Algorithm.Raft.Cluster.Moves.{Quietly-Sound}
use uav.Algorithm.Raft.Cluster.Votes.{Voted-Sound, credited, Counted-Sound}
use uav.Algorithm.Raft.Cluster.Standing.{Stood-Sound}

-- Votes that were cast stand, and votes that were counted stay counted.
pub record Extends (l l' : Ledger) : Type 0 where
  pub stands : (j term : ℕ) → 0 < l.cast j term → l'.cast j term ≡ l.cast j term
  pub grows : (j term c : ℕ) → l.credit j term c ≤ l'.credit j term c

pub Extends-refl : (l : Ledger) → Extends l l
Extends-refl l = record { stands = λ j term h. refl; grows = λ j term c. omega arith }

pub Extends-trans : {l l' l'' : Ledger} → Extends l l' → Extends l' l'' → Extends l l''
Extends-trans {l} {l'} {l''} a b = record {
  stands = λ j term h.
      b.stands j term (subst (λ (k : ℕ). 0 < k) (sym (a.stands j term h)) h) ∙ a.stands j term h;
  grows = λ j term c. omega (arith, a.grows j term c, b.grows j term c);
}

abbrev pub Balanced : List ℕ → Ledger → Cluster → Type 0
Balanced ids l cl = (l' : Ledger) × IsBalanced ids l' cl × Extends l l'

module _ (ids : List ℕ) (l : Ledger) (cl : Cluster) (v : IsBalanced ids l cl) where
  Sound-Balanced :
      (i : ℕ) (t : Raft) (left : List Sent) (credit : ℕ → ℕ → ℕ → ℕ)
      → Sound ids l cl i t left credit
      → Balanced ids l (advance i t left cl)
  Sound-Balanced i t left credit h = (
    entered ids l cl i t left credit,
    entered-IsBalanced ids l cl i t left v credit h,
    record { stands = cast-kept ids l cl i t left v h.term h.vote credit; grows = h.grows },
  )

  lost-IsBalanced :
      (m : Sent) (left : List Sent)
      → Picks m cl.net left
      → IsBalanced ids l (record cl { net = left })
  lost-IsBalanced m left p =
      let less : (q : Sent → Bool) → count q left ≤ count q cl.net =
        λ q. omega (arith, Picks-count q p) in
      record {
        now = v.now;
        ahead = v.ahead;
        unasked = λ term c j later.
            omega (
              arith,
              v.unasked term c j later,
              less (is_request term c j),
              less (is_vote term c j),
            );
        once = λ term c j.
            omega (arith, v.once term c j, less (is_request term c j), less (is_vote term c j));
        own = λ term c.
            omega (arith, v.own term c, less (is_request term c c), less (is_vote term c c));
        given = λ term c j some_one.
            v.given term c j (omega (arith, some_one, less (is_vote term c j)));
        honest = omega (arith, v.honest, less lies);
        domestic = omega (arith, v.domestic, less (foreign ids));
        voted = v.voted;
        counted = v.counted;
        won = v.won;
      }

  module _ (different : distinct ids ≡ true) (nonzero : listed 0 ids ≡ false) where
    quiet-Balanced :
        (i : ℕ) (t : Raft) (left : List Sent)
        → listed i ids ≡ true
        → ((q : Sent → Bool) → count q left ≤ count q cl.net)
        → Quietly (fresh (cl.node i)) t
        → Balanced ids l (advance i t left cl)
    quiet-Balanced i t left member less q =
        Sound-Balanced i t left l.credit (Quietly-Sound ids l cl i t left v member less q)

    Turn-Balanced :
        (from i now : ℕ) (body : Body) (left : List Sent) (t : Raft)
        → listed i ids ≡ true
        → Picks (record { from = from; to = i; body = body }) cl.net left
        → (s : Raft) → s ≡ fresh (cl.node i)
        → Turn (view ids i now) from body s t
        → Balanced ids l (advance i t left cl)
    Turn-Balanced from i now _ left _ member p _ e (quiet body s t q) =
        quiet-Balanced i t left member (λ r. omega (arith, Picks-count r p))
          (subst (λ r. Quietly r t) e q)
    Turn-Balanced from i now _ left _ member p _ e (votes rv s t h) =
        Sound-Balanced i t left l.credit (
          Voted-Sound ids l cl i t left v member nonzero from rv p
            (subst (λ r. Voted from rv r t) e h))
    Turn-Balanced from i now _ left _ member p _ e (counts rvr s t h) =
        let counted = subst (λ r. Counted (view ids i now) rvr r t) e h in
        Sound-Balanced i t left (credited ids l cl i t left v member from now rvr p counted)
          (Counted-Sound ids l cl i t left v member from now rvr p counted)

Step-Balanced :
    (ids : List ℕ) (c d : Cluster) (l : Ledger)
    → distinct ids ≡ true
    → listed 0 ids ≡ false
    → IsBalanced ids l c
    → Step ids c d
    → Balanced ids l d
Step-Balanced ids _ _ l different nonzero v (started i c t member e) =
    quiet-Balanced ids l c v different nonzero i t c.net member (λ r. omega arith)
      (After-at (start-Quiet _) e)
Step-Balanced ids _ _ l different nonzero v (stopped i c member) =
    quiet-Balanced ids l c v different nonzero i _ c.net member (λ r. omega arith) (stop-Quietly _)
Step-Balanced ids _ _ l different nonzero v (ticked i wall now name c t member room e) =
    elim (After-at (on_tick-turn (view ids i now) wall name (fresh (c.node i))) e) [
      | inl q ↦ quiet-Balanced ids l c v different nonzero i t c.net member (λ r. omega arith) q
      | inr h ↦
          Sound-Balanced ids l c v i t c.net l.credit
            (Stood-Sound ids l c i t v member different now room h)
    ]
Step-Balanced ids _ _ l different nonzero v (proposed i now cmd c accepted t member e) =
    quiet-Balanced ids l c v different nonzero i t c.net member (λ r. omega arith)
      (After-at (propose-Quiet (view ids i now) cmd (fresh (c.node i))) e)
Step-Balanced ids _ _ l different nonzero v (delivered m now left c t p member e) =
    Turn-Balanced ids l c v different nonzero m.from m.to now m.body left t member p
      (fresh (c.node m.to)) refl
      (After-at (handle_body-Turn (view ids m.to now) m.from m.body (fresh (c.node m.to))) e)
Step-Balanced ids _ _ l different nonzero v (lost m left c p) =
    (l, lost-IsBalanced ids l c v m left p, Extends-refl l)

-- All that a cluster does keeps its votes in balance.
pub Steps-Balanced :
    (ids : List ℕ) (c d : Cluster) (l : Ledger)
    → distinct ids ≡ true
    → listed 0 ids ≡ false
    → IsBalanced ids l c
    → Steps ids c d
    → Balanced ids l d
Steps-Balanced ids c _ l different nonzero v here = (l, v, Extends-refl l)
Steps-Balanced ids c _ l different nonzero v (next {d} {e} steps step) =
    let (l', v', more) = Steps-Balanced ids c d l different nonzero v steps in
    let (l'', v'', more') = Step-Balanced ids d e l' different nonzero v' step in
    (l'', v'', Extends-trans more more')

-- A cluster whose nodes New has made, and which has sent nothing.
abbrev pub booted : (ℕ → RaftConfig) → (ℕ → ℕ → ℕ) → (ℕ → Bool) → Cluster
booted cfgs draws callbacks = record { node = λ i. new (cfgs i) (draws i) (callbacks i); net = [] }

abbrev pub nobody : Ledger
nobody = record { cast = λ j term. 0; credit = λ j term c. 0 }

pub booted-IsBalanced :
    (ids : List ℕ) (cfgs : ℕ → RaftConfig) (draws : ℕ → ℕ → ℕ) (callbacks : ℕ → Bool)
    → IsBalanced ids nobody (booted cfgs draws callbacks)
unfolding new count
booted-IsBalanced ids cfgs draws callbacks = record {
  now = λ i. refl;
  ahead = λ i term later. refl;
  unasked = λ term c j later. refl;
  once = λ term c j. omega arith;
  own = λ term c. refl;
  given = λ term c j some_one. absurd (omega (arith, some_one));
  honest = refl;
  domestic = refl;
  voted = λ i st. absurd (cc);
  counted = λ i st. absurd (cc);
  won = λ i lead. absurd (cc);
}
