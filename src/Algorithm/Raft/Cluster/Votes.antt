-- ===== src/Algorithm/Raft/Cluster/Votes.antt =====
-- The steps in which a vote is given or counted.
use uav.Base.{
  nat_key, ℕ, zero, suc, ◌+◌, ◌<◌, ◌≤◌, ◌≡◌, sym, ap, subst, ◌∙◌, ◌==◌, Bool, true, false, ◌&&◌,
  List, inl, inr, Bool-cases, arith,
}
use uav.Base.Map.{listed}
use uav.Algorithm.Raft.State.{Raft, request_vote, request_vote_reply, RequestVote, RequestVoteReply}
use uav.Algorithm.Raft.Cluster.{Sent, Cluster, view, fresh, advance, Picks}
use uav.Algorithm.Raft.Cluster.Turns.{is_ballot, ballots, stands}
use uav.Algorithm.Raft.Cluster.Requests.{Voted, Counted}
use uav.Algorithm.Raft.Cluster.Ledger.{
  hit, count, Picks-count, is_request, is_vote, lies, foreign, Ledger, on_record, IsBalanced,
  sum_over, sum_over-bump, posted, is_request-ballot, is_vote-ballot, lies-ballot,
}
use uav.Algorithm.Raft.Cluster.Ledgers.{entered, Sound, given-kept}
use uav.Algorithm.Raft.Cluster.Moves.{
  count-advance, domestic-after, stands-kept, won-kept, unasked-after, count-silent,
}

pub listed-positive : (ids : List ℕ) (j : ℕ) → listed 0 ids ≡ false → listed j ids ≡ true → 0 < j
listed-positive ids zero nonzero l = absurd (cc)
listed-positive ids (suc j) nonzero l = omega arith

-- Node i handles the request of a peer, and gives its vote.
module _ (ids : List ℕ) (l : Ledger) (cl : Cluster) (i : ℕ) (t : Raft) (left : List Sent)
    (v : IsBalanced ids l cl) (member : listed i ids ≡ true) (nonzero : listed 0 ids ≡ false)
    (from : ℕ) (rv : RequestVote)
    (taken : Picks (record { from = from; to = i; body = request_vote rv }) cl.net left)
    (h : Voted from rv (fresh (cl.node i)) t) where
  fewer : (q : Sent → Bool) → count q left ≤ count q cl.net
  fewer q = omega (arith, Picks-count q taken)

  sincere : (rv.candidate_id == from) ≡ true
  sincere = ground (arith, Picks-count lies taken, v.honest)

  real_sender : 0 < from
  real_sender =
      listed-positive ids from nonzero (ground (arith, Picks-count (foreign ids) taken, v.domestic))

  holds :
      t.current_term ≡ (cl.node i).current_term
      → 0 < (cl.node i).voted_for
      → t.voted_for ≡ (cl.node i).voted_for
  holds same voted = elim (h.free same) [
    | inl none_yet ↦ absurd (omega (arith, none_yet, voted))
    | inr whom ↦ h.vote ∙ sym whom
  ]

  abbrev reply : Sent
  reply = record { from = i; to = from; body = request_vote_reply h.told.0 }

  count-told :
      (p : Sent → Bool)
      → ((m : Sent) → is_ballot m.body ≡ false → p m ≡ false)
      → count p (advance i t left cl).net ≡ count p left + hit (p reply)
  unfolding count ballots
  count-told p mute =
      let (rvr, term, granted, trace) = h.told in
      let told : count p (posted i (ballots t.trace)) ≡ hit (p reply) + 0 =
        ap (λ b. count p (posted i b)) trace in
      omega (arith, count-advance ids l cl i t left v member fewer p mute, told)

  -- The vote answers the request.
  answers :
      (term c j : ℕ)
      → hit (is_vote term c j reply)
        ≡ hit (is_request term c j (record { from = from; to = i; body = request_vote rv }))
  answers term c j =
      let (rvr, same, granted, trace) = h.told in ground (arith, same, granted, sincere)

  steady-Voted :
      (term c j : ℕ)
      → on_record (advance i t left cl).net (entered ids l cl i t left l.credit) term c j
        ≤ on_record cl.net l term c j
  steady-Voted term c j =
      let no_request : hit (is_request term c j reply) ≡ 0 = ground arith in
      omega (
        arith,
        no_request,
        count-told (is_request term c j) (is_request-ballot term c j),
        count-told (is_vote term c j) (is_vote-ballot term c j),
        answers term c j,
        Picks-count (is_request term c j) taken,
        Picks-count (is_vote term c j) taken,
      )

  given-Voted :
      (term c j : ℕ)
      → 0 < count (is_vote term c j) (advance i t left cl).net + l.credit j term c
      → ((entered ids l cl i t left l.credit).cast j term ≡ c) × (0 < c)
  given-Voted term c j some_one = elim (Bool-cases (is_vote term c j reply)) [
    | inr other ↦ given-kept ids l cl i t left v h.term holds l.credit term c j (
        ground (
          arith,
          other,
          count-told (is_vote term c j) (is_vote-ballot term c j),
          some_one,
          fewer (is_vote term c j),
        ))
    | inl this ↦
        let (rvr, same, granted, trace) = h.told in
        let mine : ((i == j) && (t.current_term == term)) ≡ true =
          ground (arith, this, same, h.current) in
        let whom : t.voted_for ≡ c = ground (arith, this, sincere, h.vote) in
        rw mine (whom, subst (λ (k : ℕ). 0 < k) (ground (arith, this)) real_sender)
  ]

  voted-Voted : stands t.role ≡ true → t.voted_for ≡ i
  voted-Voted st =
      let (term, st', votes, lead) = h.standing st in
      let mine = v.voted i st' in
      elim (h.free term) [
        | inl none_yet ↦
            absurd (omega (arith, listed-positive ids i nonzero member, none_yet, mine))
        | inr whom ↦ h.vote ∙ sym whom ∙ mine
      ]

  pub Voted-Sound : Sound ids l cl i t left l.credit
  Voted-Sound = record {
    term = h.term;
    vote = holds;
    grows = λ j term c. omega arith;
    unasked = unasked-after ids l cl i t left v member fewer l.credit h.term holds steady-Voted;
    once = λ term c j. omega (arith, steady-Voted term c j, v.once term c j);
    own = λ term c. omega (arith, steady-Voted term c c, v.own term c);
    given = given-Voted;
    honest = omega (arith, count-told lies lies-ballot, fewer lies, v.honest);
    domestic = domestic-after ids l cl i t left v member fewer;
    voted = λ st. voted-Voted st;
    counted = λ st.
        let (term, st', votes, lead) = h.standing st in
        stands-kept ids l cl i t left v member fewer l.credit (λ j term c. omega arith) term st'
          votes;
    won = λ lead. won-kept ids l cl i t left v member fewer h.standing lead;
  }

-- Node i counts a vote.
module _ (ids : List ℕ) (l : Ledger) (cl : Cluster) (i : ℕ) (t : Raft) (left : List Sent)
    (v : IsBalanced ids l cl) (member : listed i ids ≡ true) (from now : ℕ) (rvr : RequestVoteReply)
    (taken : Picks (record { from = from; to = i; body = request_vote_reply rvr }) cl.net left)
    (h : Counted (view ids i now) rvr (fresh (cl.node i)) t) where
  abbrev counted_vote : Sent
  counted_vote = record { from = from; to = i; body = request_vote_reply rvr }

  abbrev pub credited : ℕ → ℕ → ℕ → ℕ
  credited j term c = l.credit j term c + hit (is_vote term c j counted_vote)

  less : (q : Sent → Bool) → count q left ≤ count q cl.net
  less q = omega (arith, Picks-count q taken)

  rises : (cl.node i).current_term ≤ t.current_term
  rises = omega (arith, h.term)

  balance :
      (term c j : ℕ)
      → count (is_vote term c j) (advance i t left cl).net + credited j term c
        ≡ count (is_vote term c j) cl.net + l.credit j term c
  balance term c j = omega (
    arith,
    count-silent ids l cl i t left v member less (is_vote term c j) (is_vote-ballot term c j)
        h.silent,
    Picks-count (is_vote term c j) taken,
  )

  steady-Counted :
      (term c j : ℕ)
      → on_record (advance i t left cl).net (entered ids l cl i t left credited) term c j
        ≤ on_record cl.net l term c j
  steady-Counted term c j = omega (
    arith,
    balance term c j,
    count-silent ids l cl i t left v member less (is_request term c j) (is_request-ballot term c j)
        h.silent,
    less (is_request term c j),
  )

  one_more :
      sum_over ids (λ j. l.credit j (cl.node i).current_term i)
      < sum_over ids (λ j. credited j (cl.node i).current_term i)
  one_more =
      let fits : is_vote (cl.node i).current_term i from counted_vote ≡ true =
        ground (arith, h.granted, h.current) in
      sum_over-bump ids (λ j. l.credit j (cl.node i).current_term i)
        (λ j. credited j (cl.node i).current_term i) from (λ j. omega arith) (rw fits (omega arith))
        (ground (arith, Picks-count (foreign ids) taken, v.domestic))

  pub Counted-Sound : Sound ids l cl i t left credited
  Counted-Sound = record {
    term = rises;
    vote = λ _ _. h.vote;
    grows = λ j term c. omega arith;
    unasked =
        unasked-after ids l cl i t left v member less credited rises (λ _ _. h.vote) steady-Counted;
    once = λ term c j. omega (arith, steady-Counted term c j, v.once term c j);
    own = λ term c. omega (arith, steady-Counted term c c, v.own term c);
    given = λ term c j some_one.
        given-kept ids l cl i t left v rises (λ _ _. h.vote) credited term c j
          (omega (arith, some_one, balance term c j));
    honest = omega (
      arith,
      count-silent ids l cl i t left v member less lies lies-ballot h.silent,
      less lies,
      v.honest,
    );
    domestic = domestic-after ids l cl i t left v member less;
    voted = λ st. h.vote ∙ v.voted i h.stood;
    counted = λ st. rw (h.term, h.votes) (omega (arith, one_more, v.counted i h.stood));
    won = h.won;
  }
