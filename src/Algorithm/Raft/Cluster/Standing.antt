-- ===== src/Algorithm/Raft/Cluster/Standing.antt =====
-- The steps in which a node stands for election.
use uav.Base.{
  nat_key, ℕ, ◌+◌, ◌<◌, ◌≤◌, ◌≡◌, refl, ap, subst, ◌∙◌, ◌==◌, ==_iff, not, Bool, true, false, ◌&&◌,
  List, [], ◌∷◌, map, inl, inr, Bool-cases, u32, arith,
}
use uav.Base.Map.{listed}
use uav.Algorithm.Raft.State.{Raft, request_vote, RequestVote}
use uav.Algorithm.Raft.Cluster.{Sent, Cluster, distinct, others, view, fresh, advance}
use uav.Algorithm.Raft.Cluster.Turns.{is_ballot, ballots}
use uav.Algorithm.Raft.Cluster.Candidates.{Stood}
use uav.Algorithm.Raft.Cluster.Ledger.{
  hit, count, is_request, is_vote, lies, Ledger, on_record, IsBalanced, posted, is_request-ballot,
  is_vote-ballot, lies-ballot,
}
use uav.Algorithm.Raft.Cluster.Ledgers.{entered, Sound, given-kept, term-kept}
use uav.Algorithm.Raft.Cluster.Moves.{count-advance, domestic-after}

pub listed-others :
    (i j : ℕ) (ids : List ℕ) → listed j (others i ids) ≡ (not (i == j) && listed j ids)
listed-others i j [] = ground arith
listed-others i j (k ∷ ids) = ground (arith, listed-others i j ids)

distinct-others : (i : ℕ) (ids : List ℕ) → distinct ids ≡ true → distinct (others i ids) ≡ true
distinct-others i [] d = refl
distinct-others i (k ∷ ids) d = ground (arith, distinct-others i ids, d, listed-others i k ids)

-- The requests of one candidacy.
module _ (i : ℕ) (rv : RequestVote) where
  abbrev asked : List ℕ → List Sent
  asked ps = posted i (map (λ p. (p, request_vote rv)) ps)

  asked-requests :
      (term c j : ℕ) (ps : List ℕ)
      → distinct ps ≡ true
      → count (is_request term c j) (asked ps)
        ≤ hit (listed j ps && (rv.term == term && rv.candidate_id == c))
  unfolding count
  asked-requests term c j [] d = omega arith
  asked-requests term c j (p ∷ ps) d = ground (arith, asked-requests term c j ps, d)

  asked-votes : (term c j : ℕ) (ps : List ℕ) → count (is_vote term c j) (asked ps) ≡ 0
  unfolding count
  asked-votes term c j [] = refl
  asked-votes term c j (p ∷ ps) = ground (arith, asked-votes term c j ps)

  asked-lies : (ps : List ℕ) → rv.candidate_id ≡ i → count lies (asked ps) ≡ 0
  unfolding count
  asked-lies [] e = refl
  asked-lies (p ∷ ps) e = ground (arith, asked-lies ps, e)

module _ (ids : List ℕ) (l : Ledger) (cl : Cluster) (i : ℕ) (t : Raft) (v : IsBalanced ids l cl)
    (member : listed i ids ≡ true) (different : distinct ids ≡ true) (now : ℕ)
    (room : (cl.node i).current_term + 1 < u32)
    (h : Stood (view ids i now) (fresh (cl.node i)) t) where
  next_term : t.current_term ≡ (cl.node i).current_term + 1
  next_term = h.term ∙ omega (arith, room)

  count-asked :
      (p : Sent → Bool)
      → ((m : Sent) → is_ballot m.body ≡ false → p m ≡ false)
      → count p (advance i t cl.net cl).net
        ≡ count p cl.net + count p (asked i h.asked.0 (others i ids))
  unfolding ballots
  count-asked p mute =
      let (rv, term, whom, trace) = h.asked in
      let sent : count p (posted i (ballots t.trace)) ≡ count p (asked i rv (others i ids)) =
        ap (λ b. count p (posted i b)) trace in
      omega (arith, count-advance ids l cl i t cl.net v member (λ q. omega arith) p mute, sent)

  count-votes :
      (term c j : ℕ)
      → count (is_vote term c j) (advance i t cl.net cl).net ≡ count (is_vote term c j) cl.net
  count-votes term c j = omega (
    arith,
    count-asked (is_vote term c j) (is_vote-ballot term c j),
    asked-votes i h.asked.0 term c j (others i ids),
  )

  -- What is on record grows by the requests of the new term.
  recorded :
      (term c j : ℕ)
      → on_record (advance i t cl.net cl).net (entered ids l cl i t cl.net l.credit) term c j
        ≤ on_record cl.net l term c j
          + hit (listed j (others i ids) && (t.current_term == term && i == c))
  recorded term c j =
      let (rv, same, whom, trace) = h.asked in
      let made = asked-requests i rv term c j (others i ids) (distinct-others i ids different) in
      let requests : hit (listed j (others i ids) && (rv.term == term && rv.candidate_id == c))
          ≡ hit (listed j (others i ids) && (t.current_term == term && i == c)) =
        rw (same, whom) refl in
      omega (
        arith,
        count-asked (is_request term c j) (is_request-ballot term c j),
        count-votes term c j,
        made,
        requests,
      )

  unasked-Stood :
      (term c j : ℕ)
      → ((advance i t cl.net cl).node c).current_term < term
      → on_record (advance i t cl.net cl).net (entered ids l cl i t cl.net l.credit) term c j ≡ 0
  unasked-Stood term c j later =
      let before = v.unasked term c j (
        term-kept ids l cl i t cl.net v (omega (arith, next_term))
          (λ same _. absurd (omega (arith, next_term, same))) l.credit c term later) in
      elim (Bool-cases (t.current_term == term && i == c)) [
        | inr other ↦ ground (arith, recorded term c j, before, other)
        | inl this ↦
            let me : (i == c) ≡ true = ground (arith, this) in
            let now : (advance i t cl.net cl).node c ≡ t = rw me refl in
            absurd (ground (arith, this, subst (λ (r : Raft). r.current_term < term) now later))
      ]

  once-Stood :
      (term c j : ℕ)
      → on_record (advance i t cl.net cl).net (entered ids l cl i t cl.net l.credit) term c j ≤ 1
  once-Stood term c j = elim (Bool-cases (t.current_term == term && i == c)) [
    | inr other ↦ ground (arith, recorded term c j, v.once term c j, other)
    | inl this ↦
        let me : i ≡ c = (==_iff i c).0 (ground (arith, this)) in
        let at_t : t.current_term ≡ term = (==_iff t.current_term term).0 (ground (arith, this)) in
        let new : (cl.node c).current_term < term =
          subst (λ k. (cl.node k).current_term < term) me (omega (arith, next_term, at_t)) in
        ground (arith, recorded term c j, v.unasked term c j new)
  ]

  pub Stood-Sound : Sound ids l cl i t cl.net l.credit
  Stood-Sound = record {
    term = omega (arith, next_term);
    vote = λ same _. absurd (omega (arith, next_term, same));
    grows = λ j term c. omega arith;
    unasked = unasked-Stood;
    once = λ term c j. once-Stood term c j;
    own = λ term c. ground (arith, recorded term c c, v.own term c, listed-others i c ids);
    given = λ term c j some_one.
        given-kept ids l cl i t cl.net v (omega (arith, next_term))
          (λ same _. absurd (omega (arith, next_term, same))) l.credit term c j
          (omega (arith, count-votes term c j, some_one));
    honest = omega (
      arith,
      count-asked lies lies-ballot,
      asked-lies i h.asked.0 (others i ids) h.asked.2,
      v.honest,
    );
    domestic = domestic-after ids l cl i t cl.net v member (λ q. omega arith);
    voted = λ st. h.vote;
    counted = λ st. omega (arith, h.votes);
    won = λ lead. absurd (ground (arith, lead, h.role));
  }
