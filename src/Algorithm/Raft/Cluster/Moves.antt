-- ===== src/Algorithm/Raft/Cluster/Moves.antt =====
-- The steps that move no vote, give one or count one.
use uav.Base.{
  nat_key, ℕ, ◌+◌, ◌/◌, ◌<◌, ◌≤◌, ◌≡◌, sym, ap, subst, ◌∙◌, Bool, true, false, List, [], arith,
  length,
}
use uav.Base.Map.{listed}
use uav.Algorithm.Raft.State.{Raft, is_leader}
use uav.Algorithm.Raft.Cluster.{Sent, Cluster, sends_of, others, fresh, advance}
use uav.Algorithm.Raft.Cluster.Turns.{is_ballot, ballots, stands, Quietly}
use uav.Algorithm.Raft.Cluster.Ledger.{
  count, count-append, is_request, is_vote, lies, foreign, Ledger, on_record, IsBalanced, sum_over,
  sum_over-le, posted, count-sends_of, count-foreign, is_request-ballot, is_vote-ballot,
  lies-ballot,
}
use uav.Algorithm.Raft.Cluster.Ledgers.{entered, Sound, given-kept, term-kept}

module _ (ids : List ℕ) (l : Ledger) (cl : Cluster) (i : ℕ) (t : Raft) (left : List Sent)
    (v : IsBalanced ids l cl) (member : listed i ids ≡ true)
    (fewer : (q : Sent → Bool) → count q left ≤ count q cl.net) where
  -- What the network counts after the step.
  pub count-advance :
      (q : Sent → Bool)
      → ((m : Sent) → is_ballot m.body ≡ false → q m ≡ false)
      → count q (advance i t left cl).net ≡ count q left + count q (posted i (ballots t.trace))
  count-advance q h =
      count-append q left (sends_of i t.trace)
      ∙ ap (λ k. count q left + k) (count-sends_of q i t.trace h)

  pub domestic-after : count (foreign ids) (advance i t left cl).net ≡ 0
  domestic-after = omega (
    arith,
    count-append (foreign ids) left (sends_of i t.trace),
    count-foreign ids i t.trace member,
    fewer (foreign ids),
    v.domestic,
  )

  -- The nodes' own fields after a turn in which the votes, as counted, stay in use or grow.
  pub stands-kept :
      (credit : ℕ → ℕ → ℕ → ℕ)
      → ((j term c : ℕ) → l.credit j term c ≤ credit j term c)
      → t.current_term ≡ (cl.node i).current_term
      → stands (cl.node i).role ≡ true
      → t.votes_received ≡ (cl.node i).votes_received
      → t.votes_received ≤ 1 + sum_over ids (λ j. credit j t.current_term i)
  stands-kept credit grows term st votes =
      rw (term, votes)
        (omega (
          arith,
          v.counted i st,
          sum_over-le ids (λ k. l.credit k (cl.node i).current_term i)
              (λ k. credit k (cl.node i).current_term i) (λ k. grows k (cl.node i).current_term i),
        ))

  pub won-kept :
      (stands t.role ≡ true
        → (t.current_term ≡ (cl.node i).current_term)
          × (stands (cl.node i).role ≡ true)
          × (t.votes_received ≡ (cl.node i).votes_received)
          × (is_leader t.role ≡ true → is_leader (cl.node i).role ≡ true))
      → is_leader t.role ≡ true
      → length (others i ids) / 2 + 1 ≤ t.votes_received
  won-kept standing lead =
      let (term, st, votes, led) = standing (ground (arith, lead)) in
      subst (λ k. length (others i ids) / 2 + 1 ≤ k) (sym votes) (v.won i (led lead))

  -- The votes after a step in which nothing new is asked for.
  pub unasked-after :
      (credit : ℕ → ℕ → ℕ → ℕ)
      → (cl.node i).current_term ≤ t.current_term
      → (t.current_term ≡ (cl.node i).current_term
          → 0 < (cl.node i).voted_for
          → t.voted_for ≡ (cl.node i).voted_for)
      → ((term c j : ℕ)
          → on_record (advance i t left cl).net (entered ids l cl i t left credit) term c j
            ≤ on_record cl.net l term c j)
      → (term c j : ℕ) → ((advance i t left cl).node c).current_term < term
      → on_record (advance i t left cl).net (entered ids l cl i t left credit) term c j ≡ 0
  unasked-after credit rises holds steady term c j later = omega (
    arith,
    steady term c j,
    v.unasked term c j (term-kept ids l cl i t left v rises holds credit c term later),
  )

  -- A node that sends nothing about votes.
  pub count-silent :
      (p : Sent → Bool)
      → ((m : Sent) → is_ballot m.body ≡ false → p m ≡ false)
      → ballots t.trace ≡ ballots []
      → count p (advance i t left cl).net ≡ count p left
  unfolding count ballots
  count-silent p h silent =
      let none_posted : count p (posted i (ballots t.trace)) ≡ 0 =
        ap (λ b. count p (posted i b)) silent in
      omega (arith, count-advance p h, none_posted)

  -- A step that leaves the votes where they are.
  steady-Quietly :
      ballots t.trace ≡ ballots []
      → (term c j : ℕ)
      → on_record (advance i t left cl).net (entered ids l cl i t left l.credit) term c j
        ≤ on_record cl.net l term c j
  steady-Quietly silent term c j = omega (
    arith,
    count-silent (is_request term c j) (is_request-ballot term c j) silent,
    count-silent (is_vote term c j) (is_vote-ballot term c j) silent,
    fewer (is_request term c j),
    fewer (is_vote term c j),
  )

  pub Quietly-Sound : Quietly (fresh (cl.node i)) t → Sound ids l cl i t left l.credit
  Quietly-Sound q = record {
    term = q.term;
    vote = λ e _. q.vote e;
    grows = λ j term c. omega arith;
    unasked = unasked-after l.credit q.term (λ e _. q.vote e) (steady-Quietly q.silent);
    once = λ term c j. omega (arith, steady-Quietly q.silent term c j, v.once term c j);
    own = λ term c. omega (arith, steady-Quietly q.silent term c c, v.own term c);
    given = λ term c j some_one.
        given-kept ids l cl i t left v q.term (λ e _. q.vote e) l.credit term c j
          (omega (
            arith,
            some_one,
            count-silent (is_vote term c j) (is_vote-ballot term c j) q.silent,
            fewer (is_vote term c j),
          ));
    honest = omega (arith, count-silent lies lies-ballot q.silent, fewer lies, v.honest);
    domestic = domestic-after;
    voted = λ st. let (term, st', votes, lead) = q.standing st in q.vote term ∙ v.voted i st';
    counted = λ st.
        let (term, st', votes, lead) = q.standing st in
        stands-kept l.credit (λ j term c. omega arith) term st' votes;
    won = λ lead. won-kept q.standing lead;
  }
